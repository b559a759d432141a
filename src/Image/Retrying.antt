-- ===== src/Image/Retrying.antt =====
-- When `runWithRetry` of internal/image/runner.go ends.
use gpt2api.Prelude.{
  ℕ, zero, suc, ◌+◌, ◌≤◌, ◌≡◌, refl, ◌⊎◌, inl, inr, arith, String, Bool, true, false, leb,
  Bool-cases,
}
use gpt2api.Image.Runner.{
  Options, RunResult, Attempt, max_attempt_window, is_retryable_image_failure, retry_limit,
  failure_code, copy_run_result_state, after_attempt, retry_loop, run_with_retry,
}

retry_limit-le_window : (m : ℕ) (code : String) → retry_limit m code ≤ max_attempt_window m
unfolding retry_limit max_attempt_window
retry_limit-le_window m code = ground arith

module _ {W : Type 0} (run_once : Options → W → Attempt × W) (ctx_done : W → Bool) where
  -- Why a run with retries ended.
  abbrev pub EndsRightly : ℕ → (Bool × RunResult) × W → Type 0
  EndsRightly max_attempts ((passed, r), w) =
      (passed ≡ true)
      ⊎ (ctx_done w ≡ true)
      ⊎ (is_retryable_image_failure r.error_code ≡ false)
      ⊎ (retry_limit max_attempts r.error_code ≤ r.attempts)

  abbrev pub Ends : ℕ → (Bool × RunResult) × W → Type 0
  Ends max_attempts x =
      (x.0.1.attempts ≤ max_attempt_window max_attempts) × EndsRightly max_attempts x

  after_attempt-Ends :
      (n : ℕ) (o : Options) (r : RunResult) (again : RunResult → W → (Bool × RunResult) × W)
      (x : Attempt × W)
      → n ≤ max_attempt_window o.max_attempts
      → r.attempts ≡ n
      → ((q : RunResult) (w : W)
          → q.attempts ≡ n
          → suc n ≤ max_attempt_window o.max_attempts
          → Ends o.max_attempts (again q w))
      → Ends o.max_attempts (after_attempt run_once ctx_done n o r again x)
  unfolding after_attempt
  after_attempt-Ends n o r again (a, w) le now next =
      let bound = retry_limit-le_window o.max_attempts (failure_code a) in
      let marked = record (copy_run_result_state r a.result) {
        error_message = a.message;
        error_code = failure_code a;
      } in
      elim (Bool-cases a.passed) [
        | inl e ↦ rw e (omega arith, inl refl)
        | inr e ↦ elim (Bool-cases (is_retryable_image_failure (failure_code a))) [
          | inr f ↦ rw (e, f) (omega arith, inr (inr (inl f)))
          | inl f ↦ elim (Bool-cases (leb (retry_limit o.max_attempts (failure_code a)) n)) [
            | inl g ↦ rw (e, f, g) (omega arith, inr (inr (inr (ground arith))))
            | inr g ↦ rw (e, f, g) (next marked w now (ground arith))
          ]
        ]
      ]

  retry_loop-Ends :
      (fuel n : ℕ) (o : Options) (r : RunResult) (w : W)
      → n + fuel ≡ suc (max_attempt_window o.max_attempts)
      → n ≤ max_attempt_window o.max_attempts
      → Ends o.max_attempts (retry_loop run_once ctx_done fuel n o r w)
  unfolding retry_loop
  retry_loop-Ends zero n o r w sum le = absurd (omega arith)
  retry_loop-Ends (suc fuel) n o r w sum le = elim (Bool-cases (ctx_done w)) [
    | inl e ↦ rw e (omega arith, inr (inl e))
    | inr e ↦ rw e (
        after_attempt-Ends n o (record r { attempts = n })
          (λ q v. retry_loop run_once ctx_done fuel (suc n) o q v) (run_once o w) (omega arith) refl
          (λ q v now more. retry_loop-Ends fuel (suc n) o q v (omega arith) more))
  ]

  window-pos : (m : ℕ) → 1 ≤ max_attempt_window m
  unfolding max_attempt_window
  window-pos m = ground arith

  -- A run with retries makes at most `maxAttemptWindow` attempts. It ends with an image result, or
  -- when the context is over, or after a failure that is not to be retried, or when the number of
  -- attempts has reached the limit of the last failure's code.
  pub run_with_retry-Ends :
      (o : Options) (r : RunResult) (w : W)
      → Ends o.max_attempts (run_with_retry run_once ctx_done o r w)
  unfolding run_with_retry
  run_with_retry-Ends o r w =
      retry_loop-Ends (max_attempt_window o.max_attempts) 1 o r w (omega arith)
        (window-pos o.max_attempts)
