-- ===== src/Image/Archive.antt =====
-- internal/image/runner.go: where the images of a result are kept. `Ports` are the interfaces behind
-- the runner: the settings, the store of files, the cloud uploader and the download of a URL. `W`
-- is the state behind them; `file_named` and `inline_url` are the texts that fmt.Sprintf makes.
use gpt2api.Prelude.{
  ℕ, zero, suc, String, Bool, true, ◌||◌, not, List, [], ◌∷◌, ◌++◌, ltb, str_eq, length,
  if◌then◌else◌,
}
use gpt2api.Db.Action.{Result, ok, err, said}
use gpt2api.Image.{StorageMode, local, cloud, normalize_storage_mode}
use gpt2api.Image.Runner.{Source, RunResult, started}

pub record Ports (W : Type 0) : Type 0 where
  pub image_storage_mode : String
  pub has_files : Bool
  pub cloud_uploader : Result (Unit {0})
  pub image_upload_channels : List String
  pub upload : Source → String → W → Result String × W
  pub build_thumbnail : String → Result (String × String)
  pub download : String → W → Result (String × String) × W
  pub save_task_references : String → List Source → W → Result (Unit {0}) × W
  pub save_task_images : String → List Source → W → Result (Unit {0}) × W
  pub file_named : String → String → ℕ → String
  pub reference_named : String → String → ℕ → String
  pub inline_url : ℕ → String

abbrev none_at : List String → ℕ → String
none_at [] i = ""
none_at (x ∷ xs) zero = x
none_at (x ∷ xs) (suc i) = none_at xs i

-- The early return on an error.
abbrev pub and_then : {A B W : Type 0} → Result A × W → (A → W → Result B × W) → Result B × W
and_then (err e, w) f = (err e, w)
and_then (ok a, w) f = f a w

module _ {W : Type 0} (p : Ports W) where
  -- `uploadCloudImage`: the channels in turn, until one takes the image.
  unfoldable pub upload_cloud_image : Result String → Source → List String → W → Result String × W
  upload_cloud_image last src [] w = (last, w)
  upload_cloud_image last src (c ∷ cs) w =
      let (r, v) = p.upload src c w in
      elim r [ ok url ↦ (ok url, v) | err e ↦ upload_cloud_image (err e) src cs v ]

  abbrev pub first_upload : Source → W → Result String × W
  first_upload src =
      upload_cloud_image (err (said "cloud upload failed")) src p.image_upload_channels

  -- `buildCloudThumbSource`; `named` makes the names of the files, here and below.
  abbrev pub build_cloud_thumb_source :
      (String → String → ℕ → String) → String → Source → Result Source
  build_cloud_thumb_source named task_id src = elim (p.build_thumbnail src.image_data) [
    | err e ↦ err e
    | ok (thumb_data, content_type) ↦ ok (record {
      index = src.index;
      file_name = named "tmp_" task_id src.index;
      image_data = thumb_data;
      content_type = content_type;
    })
  ]

  -- The URL of a thumbnail, "" where it cannot be made or stored.
  abbrev pub thumb_url : (String → String → ℕ → String) → String → Source → W → String × W
  thumb_url named task_id src w = elim (build_cloud_thumb_source named task_id src) [
    | err e ↦ ("", w)
    | ok thumb ↦ let (r, v) = first_upload thumb w in elim r [ err e ↦ ("", v) | ok url ↦ (url, v) ]
  ]

  -- The loop of `uploadCloudImages`: the URLs and the thumbnails' URLs.
  unfoldable pub upload_each :
      (String → String → ℕ → String)
      → String
      → List Source
      → W
      → Result (List String × List String) × W
  upload_each named task_id [] w = (ok ([], []), w)
  upload_each named task_id (src ∷ rest) w =
      and_then (first_upload (record src { file_name = named "" task_id src.index }) w) (λ url v.
        let (thumb, u) = thumb_url named task_id src v in
        and_then (upload_each named task_id rest u)
          (λ more x. (ok (url ∷ more.0, thumb ∷ more.1), x)))

  -- `uploadCloudImages`
  unfoldable pub upload_cloud_images : String → List Source → RunResult → W → Result RunResult × W
  upload_cloud_images task_id images r w =
      and_then (p.cloud_uploader, w)
        (λ _ v.
          if not (ltb 0 (length images))
          then (err (said "no archive images"), v)
          else and_then (upload_each p.file_named task_id images v)
              (λ both u. (ok (record r { signed_urls = both.0; thumb_urls = both.1 }), u)))

  -- The loop of `downloadArchiveImages`
  unfoldable pub download_each : List String → ℕ → List String → W → Result (List Source) × W
  download_each types i [] w = (ok [], w)
  download_each types i (url ∷ urls) w = and_then (p.download url w) (λ got v.
      and_then (download_each types (suc i) urls v) (λ more u. (
        ok (
            record {
              index = i;
              file_name = "";
              image_data = got.0;
              content_type = if str_eq got.1 "" then none_at types i else got.1;
            }
            ∷ more),
        u,
      )))

  -- `downloadArchiveImages`
  abbrev pub download_archive_images : RunResult → W → Result (List Source) × W
  download_archive_images r w =
      if ltb 0 (length r.signed_urls)
      then download_each r.content_types 0 r.signed_urls w
      else (err (said "no signed urls"), w)

  -- `archiveSourceImages`
  abbrev pub archive_source_images : RunResult → W → Result (List Source) × W
  archive_source_images r w =
      if ltb 0 (length r.archive_images)
      then (ok r.archive_images, w)
      else download_archive_images r w

  -- The cases of `archiveResultImages`
  abbrev pub archive_as : StorageMode → String → RunResult → W → Result RunResult × W
  archive_as cloud task_id r w =
      and_then (archive_source_images r w) (λ images v. upload_cloud_images task_id images r v)
  archive_as local task_id r w =
      if not p.has_files || str_eq task_id ""
      then (ok r, w)
      else and_then (archive_source_images r w) (λ images v.
        if not (ltb 0 (length images))
        then (err (said "no archive images"), v)
        else and_then (p.save_task_images task_id images v) (λ _ u. (ok r, u)))

  -- `archiveResultImages`
  unfoldable pub archive_result_images : String → RunResult → W → Result RunResult × W
  archive_result_images task_id r w =
      let mode = normalize_storage_mode p.image_storage_mode in
      archive_as mode task_id (record r { storage_mode = mode }) w

  -- The inline images follow the downloaded ones.
  unfoldable pub renumbered : ℕ → List Source → List Source
  renumbered base [] = []
  renumbered base (x ∷ xs) = record x { index = base } ∷ renumbered (suc base) xs

  -- The URLs of a result from outside; an inline image has one made up.
  unfoldable pub inline_urls : ℕ → List Source → List String
  inline_urls i [] = []
  inline_urls i (x ∷ xs) = p.inline_url i ∷ inline_urls (suc i) xs

  abbrev pub external : List String → List Source → List Source → RunResult
  external urls downloaded inline_images =
      record (started (normalize_storage_mode p.image_storage_mode)) {
        archive_images = downloaded ++ renumbered (length downloaded) inline_images;
        signed_urls = urls ++ inline_urls (length downloaded) inline_images;
        error_code = "";
      }

  -- `ArchiveExternalImages`
  unfoldable pub archive_external_images :
      String → List String → List Source → W → Result RunResult × W
  archive_external_images task_id urls inline_images w =
      and_then (download_each [] 0 urls w) (λ downloaded v.
        if ltb 0 (length (downloaded ++ renumbered (length downloaded) inline_images))
        then and_then (archive_result_images task_id (external urls downloaded inline_images) v)
            (λ r u. (ok (record r { is_success = true }), u))
        else (err (said "no archive images"), v))
