-- ===== src/Lock/Tests.antt =====
-- pkg/lock/redis_lock.go at concrete inputs.
use gpt2api.Prelude.{◌≡◌, refl, false, true, none, List, [], ◌∷◌}
use gpt2api.Lock.{acquire, look_up}
use gpt2api.Lock.Holding.{Event, acquiring, releasing, refreshing, wins, acquire-wins}

-- A rival that tries twice and releases what it does not hold, and a driver error.
abbrev rivals : List Event
rivals =
    record { now = 100; fails = false; command = acquiring "acct:lock:1" "b" 500 }
    ∷ record { now = 120; fails = false; command = releasing "acct:lock:1" "b" }
    ∷ record { now = 130; fails = true; command = acquiring "acct:lock:1" "c" 500 }
    ∷ record { now = 140; fails = false; command = acquiring "acct:lock:2" "b" 500 }
    ∷ record { now = 400; fails = false; command = refreshing "acct:lock:1" "b" 9 }
    ∷ record { now = 400; fails = false; command = acquiring "acct:lock:1" "b" 500 }
    ∷ []

acquire-wins_example :
    (look_up 50 "acct:lock:1" [] ≡ none)
    × (wins "acct:lock:1" rivals (acquire false 50 "acct:lock:1" "a" 500 []).1 ≡ 0)
unfolding acquire look_up
acquire-wins_example = acquire-wins false 50 "acct:lock:1" "a" 500 [] rivals refl (
  refl,
  (refl, (refl, (refl, (refl, (refl, (refl, (refl, (refl, (refl, (refl, (refl, tt))))))))))),
)
