-- ===== src/RateLimit/Tests.antt =====
-- A bucket of internal/ratelimit at concrete requests.
use gpt2api.Prelude.{◌+◌, ◌*◌, ◌≤◌, ◌≡◌, refl, true, false, List, [], ◌∷◌, arith}
use gpt2api.Prelude.Int.{◌+ℤ◌, ◌-ℤ◌}
use gpt2api.RateLimit.{look_up, put, unit, allow}
use gpt2api.RateLimit.Window.{raw, Request, let_through, let_through-window}

-- Three requests a minute: four at once, one after 20 seconds, and one that fails.
abbrev requests : List Request
requests =
    record { now = 1000; fails = false; cost = 1 }
    ∷ record { now = 1000; fails = false; cost = 1 }
    ∷ record { now = 1000; fails = false; cost = 1 }
    ∷ record { now = 1000; fails = false; cost = 1 }
    ∷ record { now = 21000; fails = false; cost = 1 }
    ∷ record { now = 21500; fails = true; cost = 1 }
    ∷ []

four_let_through : let_through 3 "rl:rpm:k:1" requests [] ≡ 4
unfolding let_through allow look_up put ◌+ℤ◌ ◌-ℤ◌
four_let_through = refl

let_through-window_example :
    let_through 3 "rl:rpm:k:1" requests [] * unit + 1000 * 3 ≤ 3 * unit + 22000 * 3
unfolding raw
let_through-window_example = let_through-window 3 "rl:rpm:k:1" requests 1000 22000 [] refl (
  omega arith,
  (omega arith, (omega arith, (omega arith, (omega arith, (omega arith, omega arith))))),
)
