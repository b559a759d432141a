-- ===== src/Scheduler/Dispatch.antt =====
-- `Dispatch` and `Release` of internal/scheduler/scheduler.go: the attempts with the waits between.
use gpt2api.Prelude.{ℕ, zero, suc, ◌+◌, ◌-◌, ◌/◌, String, Bool, Option, ltb, leb, if◌then◌else◌}
use gpt2api.Account.{mark_used}
use gpt2api.Proxy.{Proxy}
use gpt2api.Scheduler.{World, Config, RuntimeParams, queue_wait, Lease, write}
use gpt2api.Scheduler.Attempt.{
  Attempt, got, busy, list_failed, try_dispatch_once, give_back, release_held,
}

-- `Lease.Release`; the errors that it joins are left out.
unfoldable pub release_account : (ℕ → ℕ) → ℕ → Lease → World → Lease × World
release_account day_of now l w =
    let (failed, u) = write (mark_used now (day_of now) l.account_id) w in
    let (held, v) = release_held now l.proxy_lease u in
    (record l { proxy_lease = held }, give_back now l.lock_key l.lock_token v)

-- `Dispatch`, on fuel. `others` is what the rest of the world does during the n-th wait, which is
-- `late n` too long, `cancelled n` says that the context is done before it ends, and `spent n` is the
-- time that the n-th attempt takes.
pub data Outcome : Type 0 where
  dispatched : Lease → Outcome
  no_available : Outcome
  list_error : Outcome
  context_done : Outcome
  out_of_fuel : Outcome

pub record Surroundings : Type 0 where
  pub others : ℕ → World → World
  pub late : ℕ → ℕ
  pub spent : ℕ → ℕ
  pub cancelled : ℕ → Bool

abbrev pub min_backoff : ℕ
min_backoff = 200000000

abbrev pub max_backoff : ℕ
max_backoff = 2000000000

-- `backoff += backoff / 2`, at most `maxBackoff`
abbrev pub next_backoff : ℕ → ℕ
next_backoff b = if ltb max_backoff (b + b / 2) then max_backoff else b + b / 2

abbrev pub min : ℕ → ℕ → ℕ
min a b = if ltb b a then b else a

module _ (attempt : ℕ → World → Attempt × World) (around : Surroundings) (deadline : ℕ) where
  -- What `Dispatch` does after the n-th attempt, at `now`; `again` is its next round.
  unfoldable pub after_attempt :
      ℕ → ℕ → ℕ → (ℕ → World → Outcome × World) → Attempt × World → Outcome × World
  after_attempt n now backoff again (got l, w) = (dispatched l, w)
  after_attempt n now backoff again (list_failed, w) = (list_error, w)
  after_attempt n now backoff again (busy, w) =
      if leb deadline now
      then (no_available, w)
      else if around.cancelled n
      then (context_done, w)
      else again (now + min backoff (deadline - now) + around.late n) (around.others n w)

  -- The loop of `Dispatch`
  unfoldable pub dispatch_loop : ℕ → ℕ → ℕ → ℕ → World → Outcome × World
  dispatch_loop zero n now backoff w = (out_of_fuel, w)
  dispatch_loop (suc fuel) n now backoff w =
      after_attempt n (now + around.spent n) backoff
        (λ t v. dispatch_loop fuel (suc n) t (next_backoff backoff) v) (attempt now w)

module _ (key_of proxy_key_of : ℕ → String) (uuid : ℕ → String) (proxy_token : ℕ → ℕ → String)
    (decrypt : String → Option String) (url_of : ℕ → Proxy → Option String) (day_of : ℕ → ℕ)
    (config : Config) (rt : RuntimeParams) (around : Surroundings) where
  -- `Dispatch`, with one round of fuel for each nanosecond of the wait and one more.
  unfoldable pub dispatch : ℕ → String → World → Outcome × World
  dispatch now model w =
      dispatch_loop
        (λ t v.
          try_dispatch_once key_of proxy_key_of uuid proxy_token decrypt url_of day_of config rt t
            model v)
        around (now + queue_wait rt) (suc (queue_wait rt)) 1 now min_backoff w
