-- ===== src/Scheduler/Waiting.antt =====
-- The loop of Dispatch in internal/scheduler/scheduler.go ends, and what it returns comes from an
-- attempt.
use gpt2api.Prelude.{
  ℕ, zero, suc, ◌+◌, ◌-◌, ◌≤◌, ◌<◌, ◌≡◌, String, Option, arith, leb, Bool-cases, inl, inr,
}
use gpt2api.Proxy.{Proxy}
use gpt2api.Scheduler.{World, Config, RuntimeParams, Lease, queue_wait}
use gpt2api.Scheduler.Attempt.{Attempt, got, busy, list_failed, try_dispatch_once}
use gpt2api.Scheduler.Dispatch.{
  Outcome, dispatched, out_of_fuel, Surroundings, min_backoff, next_backoff, min, after_attempt,
  dispatch_loop, dispatch,
}

module _ (attempt : ℕ → World → Attempt × World) (around : Surroundings) (deadline : ℕ) where
  after_attempt_ends :
      (n now backoff : ℕ) (again : ℕ → World → Outcome × World) (r : Attempt × World)
      → 1 ≤ backoff
      → ((t : ℕ) (v : World) → now < deadline → now < t → ¬ (again t v).0 ≡ out_of_fuel)
      → ¬ (after_attempt attempt around deadline n now backoff again r).0 ≡ out_of_fuel
  unfolding after_attempt
  after_attempt_ends n now backoff again (got l, w) some_wait h = λ e. absurd (ground arith)
  after_attempt_ends n now backoff again (list_failed, w) some_wait h = λ e. absurd (ground arith)
  after_attempt_ends n now backoff again (busy, w) some_wait h =
      elim (Bool-cases (leb deadline now)) [
        | inl late ↦ rw late (λ e. absurd (ground arith))
        | inr early ↦ elim (Bool-cases (around.cancelled n)) [
          | inl c ↦ rw (early, c) (λ e. absurd (ground arith))
          | inr c ↦
              rw (early, c)
                (h (now + min backoff (deadline - now) + around.late n) (around.others n w)
                  (ground arith) (ground arith))
        ]
      ]

  next_backoff_some : (b : ℕ) → 1 ≤ b → 1 ≤ next_backoff b
  next_backoff_some b h = ground arith

  loop_ends :
      (fuel n now backoff : ℕ) (w : World)
      → 1 ≤ backoff
      → deadline ≤ now + fuel
      → ¬ (dispatch_loop attempt around deadline (suc fuel) n now backoff w).0 ≡ out_of_fuel
  unfolding dispatch_loop
  loop_ends zero n now backoff w some_wait enough =
      after_attempt_ends n (now + around.spent n) backoff
        (λ t v. dispatch_loop attempt around deadline 0 (suc n) t (next_backoff backoff) v)
        (attempt now w) some_wait (λ t v early passed. absurd (omega arith))
  loop_ends (suc f) n now backoff w some_wait enough =
      after_attempt_ends n (now + around.spent n) backoff
        (λ t v. dispatch_loop attempt around deadline (suc f) (suc n) t (next_backoff backoff) v)
        (attempt now w) some_wait
        (λ t v early passed.
          loop_ends f (suc n) t (next_backoff backoff) v (next_backoff_some backoff some_wait)
            (omega arith))

  -- A lease comes from an attempt, at its time and in the world of then.
  abbrev pub FromAttempt : (ℕ → World → Lease → World → Type 0) → Outcome × World → Type 0
  FromAttempt P (dispatched l, w') = (t : ℕ) × (v : World) × P t v l w'
  FromAttempt P (_, w') = Unit {0}

  abbrev pub Got : (ℕ → World → Lease → World → Type 0) → ℕ → World → Attempt × World → Type 0
  Got P t v (got l, w') = P t v l w'
  Got P t v (_, w') = Unit {0}

  after_attempt-FromAttempt :
      (P : ℕ → World → Lease → World → Type 0) (n now t : ℕ) (w : World) (backoff : ℕ)
      (again : ℕ → World → Outcome × World) (r : Attempt × World)
      → Got P t w r
      → ((t : ℕ) (v : World) → FromAttempt P (again t v))
      → FromAttempt P (after_attempt attempt around deadline n now backoff again r)
  unfolding after_attempt
  after_attempt-FromAttempt P n now t w backoff again (got l, w') h rest = (t, w, h)
  after_attempt-FromAttempt P n now t w backoff again (list_failed, w') h rest = tt
  after_attempt-FromAttempt P n now t w backoff again (busy, w') h rest =
      elim (Bool-cases (leb deadline now)) [
        | inl late ↦ rw late tt
        | inr early ↦ elim (Bool-cases (around.cancelled n)) [
          | inl c ↦ rw (early, c) tt
          | inr c ↦
              rw (early, c)
                (rest (now + min backoff (deadline - now) + around.late n) (around.others n w'))
        ]
      ]

  pub loop-FromAttempt :
      (P : ℕ → World → Lease → World → Type 0)
      → ((t : ℕ) (v : World) → Got P t v (attempt t v))
      → (fuel n now backoff : ℕ) (w : World)
      → FromAttempt P (dispatch_loop attempt around deadline fuel n now backoff w)
  unfolding dispatch_loop
  loop-FromAttempt P h zero n now backoff w = tt
  loop-FromAttempt P h (suc f) n now backoff w =
      after_attempt-FromAttempt P n (now + around.spent n) now w backoff
        (λ t v. dispatch_loop attempt around deadline f (suc n) t (next_backoff backoff) v)
        (attempt now w) (h now w) (λ t v. loop-FromAttempt P h f (suc n) t (next_backoff backoff) v)

-- Dispatch always returns: whatever the attempts find, however long they and the waits take, and
-- whatever happens meanwhile, the loop ends within one round for each nanosecond of the wait and
-- one more.
pub dispatch_ends :
    (key_of proxy_key_of : ℕ → String) (uuid : ℕ → String) (proxy_token : ℕ → ℕ → String)
    (decrypt : String → Option String) (url_of : ℕ → Proxy → Option String) (day_of : ℕ → ℕ)
    (config : Config) (rt : RuntimeParams) (around : Surroundings) (now : ℕ) (model : String)
    (w : World)
    → ¬ (dispatch key_of proxy_key_of uuid proxy_token decrypt url_of day_of config rt around now
        model w).0
      ≡ out_of_fuel
unfolding dispatch
dispatch_ends key_of proxy_key_of uuid proxy_token decrypt url_of day_of config rt around now model
      w =
    loop_ends
      (λ t v.
        try_dispatch_once key_of proxy_key_of uuid proxy_token decrypt url_of day_of config rt t
          model v)
      around (now + queue_wait rt) (queue_wait rt) 1 now min_backoff w (omega arith) (omega arith)
