-- ===== src/Image/Bounded.antt =====
-- A successful run of internal/image/runner.go has no more images than it was asked for.
use gpt2api.Prelude.{
  ℕ, zero, suc, ◌≤◌, ◌≡◌, refl, inl, inr, arith, String, Bool, true, false, ◌||◌, not, ltb, leb,
  str_eq, Bool-cases, if◌then◌else◌, List, [], ◌==◌, length, take, length-take, length-take_all,
}
use gpt2api.Db.Action.{Result, ok, err}
use gpt2api.Image.{StorageMode, local, cloud, mark_running, normalize_storage_mode}
use gpt2api.Image.Runner.{
  Source, RunResult, Attempt, Options, run_result_image_count, trim_run_result_images, retry_loop,
  run_with_retry, after_attempt, run_parallel, is_retryable_image_failure, failure_code,
  retry_limit, max_attempt_window, at_least_one, normalize_options, started,
}
use gpt2api.Image.Archive.{
  Ports, upload_each, upload_cloud_images, download_each, archive_as, archive_result_images,
  archive_source_images,
}
use gpt2api.Image.Run.{World, run_many, run_single, run_on, run, on_tasks, passed_with, archived_as}
use gpt2api.Image.Kept.{
  Returns, Returns-and_then, Returns-any, Returns-if, upload_each-length, download_each-length,
  BothLong,
}
use gpt2api.Image.Batches.{run_parallel-Delivers, Delivers}

-- No list of the result is longer than `n`.
pub record Bounded (n : ℕ) (r : RunResult) : Type 0 where
  pub files : length r.file_ids ≤ n
  pub urls : length r.signed_urls ≤ n
  pub thumbs : length r.thumb_urls ≤ n
  pub sources : length r.archive_images ≤ n

counted-Bounded : (n : ℕ) (r : RunResult) → run_result_image_count r ≤ n → Bounded n r
unfolding run_result_image_count
counted-Bounded n r h = record {
  files = ground arith;
  urls = ground arith;
  thumbs = ground arith;
  sources = ground arith;
}

take_le : {A : Type 0} (n : ℕ) (xs : List A) → length (take n xs) ≤ n
take_le n xs = elim (Bool-cases (leb n (length xs))) [
  | inl e ↦ let some_n : n ≤ length xs = ground arith in omega (arith, length-take n xs some_n)
  | inr e ↦ let few : length xs ≤ n = ground arith in omega (arith, length-take_all n xs few)
]

trim-Bounded :
    (n : ℕ) (r : RunResult) → 1 ≤ n → r.thumb_urls ≡ [] → Bounded n (trim_run_result_images r n)
unfolding trim_run_result_images
trim-Bounded n r positive bare =
    let many : (n == 0) ≡ false = ground arith in
    rw many (record {
      files = take_le n r.file_ids;
      urls = take_le n r.signed_urls;
      thumbs = rw bare (omega arith);
      sources = take_le n r.archive_images;
    })

Returns-map :
    {A W : Type 0} (P Q : A → Type 0) (x : Result A × W)
    → ((a : A) → P a → Q a)
    → Returns P x
    → Returns Q x
Returns-map P Q (err e, w) f h = tt
Returns-map P Q (ok a, w) f h = f a h

module _ {W : Type 0} (p : Ports W) (n : ℕ) where
  upload_cloud_images-Bounded :
      (id : String) (images : List Source) (r : RunResult) (w : W)
      → length images ≤ n
      → Bounded n r
      → Returns (Bounded n) (upload_cloud_images p id images r w)
  unfolding upload_cloud_images
  upload_cloud_images-Bounded id images r w few h =
      Returns-and_then (λ _. Unit) (Bounded n) (p.cloud_uploader, w) _
        (λ _ v _. Returns-if (Bounded n) (not (ltb 0 (length images))) _ _ tt (
          Returns-and_then (BothLong p (length images)) (Bounded n)
            (upload_each p p.file_named id images v) _
            (λ both u long. record {
              files = h.files;
              urls = omega (arith, long.0);
              thumbs = omega (arith, long.1);
              sources = h.sources;
            })
            (upload_each-length p p.file_named id images v)))
        (Returns-any _)

  archive_source_images-few :
      (r : RunResult) (w : W)
      → Bounded n r
      → Returns (λ images. length images ≤ n) (archive_source_images p r w)
  archive_source_images-few r w h =
      Returns-if (λ images. length images ≤ n) (ltb 0 (length r.archive_images)) _ _ h.sources
        (Returns-if (λ images. length images ≤ n) (ltb 0 (length r.signed_urls)) _ _
          (Returns-map (λ images. length images ≡ length r.signed_urls)
            (λ images. length images ≤ n) (download_each p r.content_types 0 r.signed_urls w)
            (λ images same. omega (arith, same, h.urls))
            (download_each-length p r.content_types 0 r.signed_urls w))
          tt)

  archive_as-Bounded :
      (mode : StorageMode) (id : String) (r : RunResult) (w : W)
      → Bounded n r
      → Returns (Bounded n) (archive_as p mode id r w)
  archive_as-Bounded cloud id r w h =
      Returns-and_then (λ images. length images ≤ n) (Bounded n) (archive_source_images p r w) _
        (λ images v few. upload_cloud_images-Bounded id images r v few h)
        (archive_source_images-few r w h)
  archive_as-Bounded local id r w h =
      Returns-if (Bounded n) (not p.has_files || str_eq id "") _ _ h (
        Returns-and_then (λ _. Unit) (Bounded n) (archive_source_images p r w) _
          (λ images v _. Returns-if (Bounded n) (not (ltb 0 (length images))) _ _ tt (
            Returns-and_then (λ _. Unit) (Bounded n) (p.save_task_images id images v) _ (λ _ u _. h)
              (Returns-any _)))
          (Returns-any _))

  archive_result_images-Bounded :
      (id : String) (r : RunResult) (w : W)
      → Bounded n r
      → Returns (Bounded n) (archive_result_images p id r w)
  unfolding archive_result_images
  archive_result_images-Bounded id r w h =
      let mode = normalize_storage_mode p.image_storage_mode in
      archive_as-Bounded mode id (record r { storage_mode = mode }) w
        (record { files = h.files; urls = h.urls; thumbs = h.thumbs; sources = h.sources })

-- An attempt brings no thumbnails.
abbrev pub BringsNoThumbs : {W : Type 0} → (Options → W → Attempt × W) → Type 0
BringsNoThumbs {W} run_once = (o : Options) (w : W) → (run_once o w).0.result.thumb_urls ≡ []

module _ {W : Type 0} (run_once : Options → W → Attempt × W) (ctx_done : W → Bool)
    (bare : BringsNoThumbs run_once) where
  -- No thumbnails, and not yet a success.
  abbrev IsBare : RunResult → Type 0
  IsBare r = (r.thumb_urls ≡ []) × (r.is_success ≡ false)

  abbrev Bare : (Bool × RunResult) × W → Type 0
  Bare x = IsBare x.0.1

  after_attempt-Bare :
      (n : ℕ) (o : Options) (r : RunResult) (again : RunResult → W → (Bool × RunResult) × W)
      (x : Attempt × W)
      → x.0.result.thumb_urls ≡ []
      → r.is_success ≡ false
      → ((q : RunResult) (w : W) → IsBare q → Bare (again q w))
      → Bare (after_attempt run_once ctx_done n o r again x)
  unfolding after_attempt
  after_attempt-Bare n o r again (a, w) h still next = elim (Bool-cases a.passed) [
    | inl e ↦ rw e (h, still)
    | inr e ↦
        elim (Bool-cases (
          not (is_retryable_image_failure (failure_code a))
          || leb (retry_limit o.max_attempts (failure_code a)) n)) [
            | inl f ↦ rw (e, f) (h, still)
            | inr f ↦ rw (e, f) (next _ w (h, still))
          ]
  ]

  retry_loop-Bare :
      (fuel n : ℕ) (o : Options) (r : RunResult) (w : W)
      → IsBare r
      → Bare (retry_loop run_once ctx_done fuel n o r w)
  unfolding retry_loop
  retry_loop-Bare zero n o r w h = h
  retry_loop-Bare (suc fuel) n o r w h = elim (Bool-cases (ctx_done w)) [
    | inl e ↦ rw e h
    | inr e ↦ rw e (
        after_attempt-Bare n o (record r { attempts = n })
          (λ q v. retry_loop run_once ctx_done fuel (suc n) o q v) (run_once o w) (bare o w) (h.1)
          (λ q v k. retry_loop-Bare fuel (suc n) o q v k))
  ]

  run_with_retry-Bare :
      (o : Options) (r : RunResult) (w : W)
      → IsBare r
      → Bare (run_with_retry run_once ctx_done o r w)
  unfolding run_with_retry
  run_with_retry-Bare o r w h = retry_loop-Bare (max_attempt_window o.max_attempts) 1 o r w h

-- A success has no more images than `n`.
abbrev pub Succeeds : {W : Type 0} → ℕ → RunResult × W → Type 0
Succeeds n x = x.0.is_success ≡ true → Bounded n x.0

Succeeds-if :
    {W : Type 0} (n : ℕ) (b : Bool) (x y : RunResult × W)
    → Succeeds n x
    → Succeeds n y
    → Succeeds n (if b then x else y)
Succeeds-if n true x y h k = h
Succeeds-if n false x y h k = k

archived_as-Succeeds :
    {W : Type 0} (n : ℕ) (f : RunResult → RunResult) (r : RunResult) (x : Result RunResult × W)
    → ((y : RunResult) → Bounded n y → Bounded n (f y))
    → Returns (Bounded n) x
    → Succeeds n (archived_as f r x)
archived_as-Succeeds n f r (err e, w) keep h = λ no. absurd (ground arith)
archived_as-Succeeds n f r (ok y, w) keep h = λ yes. keep y h

module _ {V : Type 0} (run_once : Options → World V → Attempt × World V) (ctx_done : World V → Bool)
    (p : Ports (World V)) (bare : BringsNoThumbs run_once) where
  Delivers-le : (n : ℕ) (r : RunResult) → Delivers n r → run_result_image_count r ≤ n
  Delivers-le n r (inl (won, all)) = omega (arith, all)
  Delivers-le n r (inr (lost, few)) = omega arith

  run_many-Succeeds :
      (o : Options) (r : RunResult) (w : World V)
      → 1 ≤ o.n
      → r.thumb_urls ≡ []
      → r.is_success ≡ false
      → Succeeds o.n (run_many run_once ctx_done p o r w)
  unfolding run_many
  run_many-Succeeds o r w positive none still =
      let x = (run_parallel run_once ctx_done o r w).0 in
      let v = (run_parallel run_once ctx_done o r w).1 in
      let few =
        counted-Bounded o.n x
          (Delivers-le o.n x (run_parallel-Delivers run_once ctx_done o r w positive none still)) in
      Succeeds-if o.n x.is_success _ _
        (archived_as-Succeeds o.n (λ y. y) x (archive_result_images p o.task_id x v) (λ y h. h)
          (archive_result_images-Bounded p o.n o.task_id x v few))
        (λ _. few)

  run_single-Succeeds :
      (o : Options) (r : RunResult) (w : World V)
      → 1 ≤ o.n
      → r.thumb_urls ≡ []
      → r.is_success ≡ false
      → Succeeds o.n (run_single run_once ctx_done p o r w)
  unfolding run_single
  run_single-Succeeds o r w positive none still =
      let x = (run_with_retry run_once ctx_done o r w).0 in
      let v = (run_with_retry run_once ctx_done o r w).1 in
      let trimmed = trim_run_result_images x.1 o.n in
      let stays = run_with_retry-Bare run_once ctx_done bare o r w (none, still) in
      let few = trim-Bounded o.n x.1 positive (stays.0) in
      Succeeds-if o.n (not x.0) _ _ (λ yes. absurd (ground (arith, stays.1)))
        (Succeeds-if o.n (ltb (run_result_image_count trimmed) o.n) _ _
          (λ yes. absurd (ground arith))
          (archived_as-Succeeds o.n (passed_with o) trimmed
            (archive_result_images p o.task_id trimmed v)
            (λ y h. record {
              files = h.files;
              urls = h.urls;
              thumbs = h.thumbs;
              sources = h.sources;
            })
            (archive_result_images-Bounded p o.n o.task_id trimmed v few)))

  -- Where no attempt brings thumbnails, a successful run has at most the images that it was asked for,
  -- one where it was asked for none: no list of its result is longer, whatever archive is used.
  pub run-Succeeds :
      (now : ℕ) (o : Options) (w : World V)
      → Succeeds (at_least_one o.n) (run run_once ctx_done p now o w)
  unfolding run run_on
  run-Succeeds now o w =
      let q : Options = normalize_options o in
      let r : RunResult = started (normalize_storage_mode p.image_storage_mode) in
      let v : World V =
        if str_eq o.task_id "" then w else (on_tasks (mark_running now 0 o.task_id) w).1 in
      let positive : 1 ≤ q.n = ground arith in
      Succeeds-if q.n (ltb 1 q.n) _ _ (run_many-Succeeds q r v positive refl refl)
        (run_single-Succeeds q r v positive refl refl)
