-- ===== src/Image/Kept.antt =====
-- How many images internal/image/runner.go keeps of those that it is given.
use gpt2api.Prelude.{
  ℕ, suc, ◌+◌, ◌≡◌, refl, ap, ◌∙◌, sym, inl, inr, arith, String, Bool, true, false, ◌||◌, not, ltb,
  str_eq, Bool-cases, if◌then◌else◌, List, [], ◌∷◌, ◌++◌, length, length-append,
}
use gpt2api.Db.Action.{Result, ok, err, said}
use gpt2api.Image.{StorageMode, local, cloud, normalize_storage_mode}
use gpt2api.Image.Runner.{Source, RunResult}
use gpt2api.Image.Archive.{
  Ports, upload_each, upload_cloud_images, download_each, renumbered, inline_urls, external,
  and_then, archive_as, archive_result_images, archive_source_images, archive_external_images,
  first_upload, thumb_url,
}

-- A value that a call returns.
abbrev pub Returns : {A W : Type 0} → (A → Type 0) → Result A × W → Type 0
Returns P (ok a, w) = P a
Returns P (err e, w) = Unit {0}

pub Returns-and_then :
    {A B W : Type 0} (P : A → Type 0) (Q : B → Type 0) (x : Result A × W) (f : A → W → Result B × W)
    → ((a : A) (w : W) → P a → Returns Q (f a w))
    → Returns P x
    → Returns Q (and_then x f)
Returns-and_then P Q (err e, w) f h p = tt
Returns-and_then P Q (ok a, w) f h p = h a w p

-- Anything at all is returned.
pub Returns-any : {A W : Type 0} (x : Result A × W) → Returns (λ (_ : A). Unit {0}) x
Returns-any (err e, w) = tt
Returns-any (ok a, w) = tt

-- A test that returns early.
pub Returns-if :
    {A W : Type 0} (Q : A → Type 0) (b : Bool) (x y : Result A × W)
    → Returns Q x
    → Returns Q y
    → Returns Q (if b then x else y)
Returns-if Q true x y h k = h
Returns-if Q false x y h k = k

-- A result with `n` URLs.
abbrev pub Keeps : ℕ → RunResult → Type 0
Keeps n r = length r.signed_urls ≡ n

module _ {W : Type 0} (p : Ports W) where
  abbrev pub BothLong : ℕ → List String × List String → Type 0
  BothLong n (urls, thumbs) = (length urls ≡ n) × (length thumbs ≡ n)

  pub upload_each-length :
      (named : String → String → ℕ → String) (id : String) (images : List Source) (w : W)
      → Returns (BothLong (length images)) (upload_each p named id images w)
  unfolding upload_each
  upload_each-length named id [] w = (refl, refl)
  upload_each-length named id (src ∷ rest) w =
      Returns-and_then (λ _. Unit) (BothLong (suc (length rest)))
        (first_upload p (record src { file_name = named "" id src.index }) w) _
        (λ url v _.
          let (thumb, u) = thumb_url p named id src v in
          Returns-and_then (BothLong (length rest)) (BothLong (suc (length rest)))
            (upload_each p named id rest u) _ (λ more x h. (ap suc h.0, ap suc h.1))
            (upload_each-length named id rest u))
        (Returns-any _)

  pub download_each-length :
      (types : List String) (i : ℕ) (urls : List String) (w : W)
      → Returns (λ images. length images ≡ length urls) (download_each p types i urls w)
  unfolding download_each
  download_each-length types i [] w = refl
  download_each-length types i (url ∷ urls) w =
      Returns-and_then (λ _. Unit) (λ images. length images ≡ suc (length urls)) (p.download url w)
        _
        (λ got v _.
          Returns-and_then (λ images. length images ≡ length urls)
            (λ images. length images ≡ suc (length urls)) (download_each p types (suc i) urls v) _
            (λ more x h. ap suc h) (download_each-length types (suc i) urls v))
        (Returns-any _)

  length-renumbered : (base : ℕ) (xs : List Source) → length (renumbered p base xs) ≡ length xs
  unfolding renumbered
  length-renumbered base [] = refl
  length-renumbered base (x ∷ xs) = omega (arith, length-renumbered (suc base) xs)

  length-inline_urls : (i : ℕ) (xs : List Source) → length (inline_urls p i xs) ≡ length xs
  unfolding inline_urls
  length-inline_urls i [] = refl
  length-inline_urls i (x ∷ xs) = omega (arith, length-inline_urls (suc i) xs)

  upload_cloud_images-Keeps :
      (id : String) (images : List Source) (r : RunResult) (w : W)
      → Returns (Keeps (length images)) (upload_cloud_images p id images r w)
  unfolding upload_cloud_images
  upload_cloud_images-Keeps id images r w =
      Returns-and_then (λ _. Unit) (Keeps (length images)) (p.cloud_uploader, w) _
        (λ _ v _. Returns-if (Keeps (length images)) (not (ltb 0 (length images))) _ _ tt (
          Returns-and_then (BothLong (length images)) (Keeps (length images))
            (upload_each p p.file_named id images v) _ (λ both u h. h.0)
            (upload_each-length p.file_named id images v)))
        (Returns-any _)

  archive_as-Keeps :
      (mode : StorageMode) (id : String) (r : RunResult) (w : W)
      → ltb 0 (length r.archive_images) ≡ true
      → length r.signed_urls ≡ length r.archive_images
      → Returns (Keeps (length r.archive_images)) (archive_as p mode id r w)
  archive_as-Keeps cloud id r w some same =
      rw some (upload_cloud_images-Keeps id r.archive_images r w)
  archive_as-Keeps local id r w some same =
      Returns-if (Keeps (length r.archive_images)) (not p.has_files || str_eq id "") _ _ same (
        Returns-and_then (λ _. Unit) (Keeps (length r.archive_images)) (archive_source_images p r w)
          _
          (λ images v _.
            Returns-if (Keeps (length r.archive_images)) (not (ltb 0 (length images))) _ _ tt (
              Returns-and_then (λ _. Unit) (Keeps (length r.archive_images))
                (p.save_task_images id images v) _ (λ _ u _. same) (Returns-any _)))
          (Returns-any _))

  -- A result that brings its images keeps as many URLs as it has images.
  archive_result_images-Keeps :
      (id : String) (r : RunResult) (w : W)
      → ltb 0 (length r.archive_images) ≡ true
      → length r.signed_urls ≡ length r.archive_images
      → Returns (Keeps (length r.archive_images)) (archive_result_images p id r w)
  unfolding archive_result_images
  archive_result_images-Keeps id r w some same =
      let mode = normalize_storage_mode p.image_storage_mode in
      archive_as-Keeps mode id (record r { storage_mode = mode }) w some same

  -- Archived images from outside are as many as the URLs and the inline images together.
  pub archive_external_images-Keeps :
      (id : String) (urls : List String) (inline_images : List Source) (w : W)
      → Returns
          (Keeps (length urls + length inline_images))
          (archive_external_images p id urls inline_images w)
  unfolding archive_external_images
  archive_external_images-Keeps id urls inline_images w =
      Returns-and_then (λ images. length images ≡ length urls)
        (Keeps (length urls + length inline_images)) (download_each p [] 0 urls w) _ kept
        (download_each-length [] 0 urls w)
    where
      kept :
          (downloaded : List Source) (v : W)
          → length downloaded ≡ length urls
          → Returns (Keeps (length urls + length inline_images)) (
              if ltb 0 (length (downloaded ++ renumbered p (length downloaded) inline_images))
              then and_then
                  (archive_result_images p id (external p urls downloaded inline_images) v)
                  (λ r u. (ok (record r { is_success = true }), u))
              else (err (said "no archive images"), v))
      kept downloaded v e =
          let r : RunResult = external p urls downloaded inline_images in
          let total : length r.archive_images ≡ length urls + length inline_images = omega (
            arith,
            e,
            length-append downloaded (renumbered p (length downloaded) inline_images),
            length-renumbered (length downloaded) inline_images,
          ) in
          let shown : length r.signed_urls ≡ length urls + length inline_images = omega (
            arith,
            length-append urls (inline_urls p (length downloaded) inline_images),
            length-inline_urls (length downloaded) inline_images,
          ) in
          elim (Bool-cases (ltb 0 (length r.archive_images))) [
            | inl some ↦ rw some (
                Returns-and_then (Keeps (length r.archive_images))
                  (Keeps (length urls + length inline_images)) (archive_result_images p id r v) _
                  (λ x u h. h ∙ total)
                  (archive_result_images-Keeps id r v some (shown ∙ sym total)))
            | inr none ↦ rw none tt
          ]
