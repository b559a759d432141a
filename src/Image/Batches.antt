-- ===== src/Image/Batches.antt =====
-- What `runParallel` of internal/image/runner.go returns.
use gpt2api.Prelude.{
  ℕ, zero, suc, ◌-◌, ◌≤◌, ◌<◌, ◌≡◌, refl, ◌⊎◌, inl, inr, arith, Bool, true, false, leb, ltb,
  Bool-cases, if◌then◌else◌, List, [], ◌∷◌, length, take, length-take, length-take_all,
}
use gpt2api.Prelude.Sort.{sort_by}
use gpt2api.Image.{StorageMode}
use gpt2api.Image.Runner.{
  Options, RunResult, Attempt, Collected, max, max_attempt_window, trim_run_result_images,
  run_result_image_count, collect, collect_all, at_most, verdict, conclude, run_batch, batch_loop,
  run_parallel, by_index,
}

-- A result that has no thumbnails and is not yet a success.
abbrev IsOpen : RunResult → Type 0
IsOpen r = (r.thumb_urls ≡ []) × (r.is_success ≡ false)

collect-IsOpen :
    (c : Collected) (x : Bool × RunResult) → IsOpen c.so_far → IsOpen (collect c x).so_far
collect-IsOpen c (passed, sub) h = ground (arith, h.0, h.1)

collect_all-IsOpen :
    (c : Collected) (xs : List (Bool × RunResult))
    → IsOpen c.so_far
    → IsOpen (collect_all c xs).so_far
unfolding collect_all
collect_all-IsOpen c [] h = h
collect_all-IsOpen c (x ∷ xs) h = collect_all-IsOpen (collect c x) xs (collect-IsOpen c x h)

-- What a batch of `n` images comes to.
abbrev pub Delivers : ℕ → RunResult → Type 0
Delivers n r =
    ((r.is_success ≡ true) × (run_result_image_count r ≡ n))
    ⊎ ((r.is_success ≡ false) × (run_result_image_count r < n))

trimmed_count :
    (n : ℕ) (r : RunResult)
    → 1 ≤ n
    → r.thumb_urls ≡ []
    → n < run_result_image_count r
    → run_result_image_count (trim_run_result_images r n) ≡ n
unfolding run_result_image_count trim_run_result_images
trimmed_count n r some none more =
    ground (arith, none, shortened r.file_ids, shortened r.signed_urls, shortened r.archive_images)
  where
    shortened :
        {A : Type 0} (xs : List A)
        → ((n ≤ length xs) × (length (take n xs) ≡ n))
          ⊎ ((length xs < n) × (length (take n xs) ≡ length xs))
    shortened xs = elim (Bool-cases (leb n (length xs))) [
      | inl e ↦ inl (ground arith, length-take n xs (ground arith))
      | inr e ↦ inr (ground arith, length-take_all n xs (ground arith))
    ]

at_most-IsOpen :
    (n : ℕ) (r : RunResult)
    → 1 ≤ n
    → IsOpen r
    → ((at_most n r).is_success ≡ false) × (run_result_image_count (at_most n r) ≤ n)
unfolding at_most trim_run_result_images
at_most-IsOpen n r some (none, still) = elim (Bool-cases (ltb n (run_result_image_count r))) [
  | inl e ↦ rw e (ground (arith, still), omega (arith, trimmed_count n r some none (ground arith)))
  | inr e ↦ rw e (still, ground arith)
]

verdict_count :
    (n : ℕ) (c : Collected) (r : RunResult)
    → run_result_image_count (verdict n c r) ≡ run_result_image_count r
unfolding verdict run_result_image_count
verdict_count n c r = refl

verdict_success :
    (n : ℕ) (c : Collected) (r : RunResult)
    → (verdict n c r).is_success ≡ (if leb n (run_result_image_count r) then true else r.is_success)
unfolding verdict
verdict_success n c r = refl

verdict-Delivers :
    (n : ℕ) (c : Collected) (r : RunResult)
    → r.is_success ≡ false
    → run_result_image_count r ≤ n
    → Delivers n (verdict n c r)
verdict-Delivers n c r still few = elim (Bool-cases (leb n (run_result_image_count r))) [
  | inl e ↦ rw (verdict_count n c r, verdict_success n c r, e) (inl (refl, ground arith))
  | inr e ↦ rw (verdict_count n c r, verdict_success n c r, e) (inr (still, ground arith))
]

conclude-Delivers : (n : ℕ) (c : Collected) → 1 ≤ n → IsOpen c.so_far → Delivers n (conclude n c)
unfolding conclude
conclude-Delivers n c some h =
    let r = record (c.so_far) { archive_images = sort_by by_index c.so_far.archive_images } in
    let shown = at_most-IsOpen n r some h in verdict-Delivers n c (at_most n r) shown.0 shown.1

module _ {W : Type 0} (run_once : Options → W → Attempt × W) (ctx_done : W → Bool) where
  batch_loop-IsOpen :
      (fuel : ℕ) (o : Options) (mode : StorageMode) (c : Collected) (w : W)
      → IsOpen c.so_far
      → IsOpen (batch_loop run_once ctx_done fuel o mode c w).0.so_far
  unfolding batch_loop
  batch_loop-IsOpen zero o mode c w h = h
  batch_loop-IsOpen (suc fuel) o mode c w h =
      let (xs, v) = run_batch run_once ctx_done (o.n - run_result_image_count c.so_far) o mode w in
      let kept = collect_all-IsOpen c xs h in
      ground (arith, h, kept, batch_loop-IsOpen fuel o mode (collect_all c xs) v kept)

  -- A run of `n` images, `n` positive, that starts with a failed result without thumbnails is a success
  -- with exactly `n` images, or stays a failure and has fewer.
  pub run_parallel-Delivers :
      (o : Options) (r : RunResult) (w : W)
      → 1 ≤ o.n
      → r.thumb_urls ≡ []
      → r.is_success ≡ false
      → Delivers o.n (run_parallel run_once ctx_done o r w).0
  unfolding run_parallel
  run_parallel-Delivers o r w some none still =
      let c : Collected = record {
        so_far = record r { quota_used = [] };
        success_count = 0;
        last_code = "";
        last_message = "";
      } in
      conclude-Delivers o.n _ some (
        batch_loop-IsOpen (max o.n (max_attempt_window o.max_attempts)) o r.storage_mode c w
          (none, still))
