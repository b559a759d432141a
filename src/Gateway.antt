-- ===== src/Gateway.antt =====
-- internal/gateway: the requests for images. This file has their data; `Deps` is what the handler
-- calls: the standard library's functions on texts, the readers of models, groups and inputs, the
-- adapters of the channels, the runner's ports and the identifiers that are made for the request.
-- Every field of the handler is set, as in cmd/server/main.go.
pub mod Charge
pub mod References
pub mod Retry
pub mod Dispatch
pub mod Generate
pub mod Shift
mod Charged
mod Rounds
mod Complete
mod Exact
mod Owed
mod Tests
use gpt2api.Prelude.{
  ℕ, zero, suc, String, Bool, true, false, Option, none, some, List, [], ◌∷◌, ltb, length, str_eq,
  if◌then◌else◌,
}
use gpt2api.Prelude.Int.{ℤ, pos, leb_ℤ, ltb_ℤ, pos_part}
use gpt2api.Db.Action.{Error, Result, Session, Action}
use gpt2api.Db.Call.{Server, Call}
use gpt2api.ApiKey.{ApiKey, Keys}
use gpt2api.Channel.{Channel, Channels}
use gpt2api.Pricing.{Model, compute_image_cost}
use gpt2api.Image.{StorageMode, local, cloud}
use gpt2api.Image.Runner.{Source, Options, Attempt, max}
use gpt2api.Image.Archive.{Ports}
use gpt2api.Image.Run.{World}
use gpt2api.RateLimit.{Store}

-- `usage.Log`; the status is whether it is `success`.
pub record Usage : Type 0 where
  pub user_id : ℕ
  pub key_id : ℕ
  pub slug : String
  pub account_id : ℕ
  pub request_id : String
  pub is_success : Bool
  pub error_code : String
  pub image_count : ℕ
  pub credit_cost : ℤ

-- What a request reads and writes. `log` is what is written to `h.Usage`.
pub record Site (V : Type 0) : Type 0 where
  pub session : Session
  pub images : World V
  pub keys : Server Keys
  pub channels : Server Channels
  pub limits : Store
  pub log : List Usage

-- `ImageGenRequest`, the fields that are read
pub record Request : Type 0 where
  pub model : String
  pub prompt : String
  pub n : ℤ
  pub size : String
  pub response_format : String
  pub reference_images : List String

-- `ImageGenData`
pub record ImageData : Type 0 where
  pub url : String
  pub thumb_url : String
  pub file_id : String

-- An answer: an HTTP status with the code of an error, or a task and its images.
pub data Reply : Type 0 where
  refused : ℕ → String → Reply
  served : String → List ImageData → Reply

-- internal/upstream/adapter/adapter.go
pub record ImageRequest : Type 0 where
  pub model : String
  pub prompt : String
  pub n : ℕ
  pub size : String
  pub format : String
  pub references : List String

pub record ImageResult : Type 0 where
  pub urls : List String
  pub b64s : List String

-- How an attempt to make the images ended: refused, with the account, the status, the code of the log
-- and the code of the reply, or done, with the account, the images, their number and their cost.
pub data Verdict : Type 0 where
  lost : ℕ → ℕ → String → String → Verdict
  won : ℕ → List ImageData → ℕ → ℤ → Verdict

pub record Deps (V Adapter : Type 0) : Type 0 where
  pub lower : String → String
  pub trim : String → String
  pub split_x : String → List String
  pub atoi : String → Option ℤ
  pub decode_list : String → Option (List String)
  pub rpm_key : ℕ → String
  pub tpm_key : ℕ → String
  pub limiter_fails : Bool
  pub ratio_times : ℤ → ℤ → ℤ
  pub by_slug : String → Option Model
  pub of_user : ℕ → Option (ℤ × ℤ)
  pub decode_references : List String → Result (List Source)
  pub decode_inline : List String → ℕ → Result (List Source)
  pub final_prompt : String → String → String
  pub proxy_url : String → ℕ → Bool → String
  pub without_sed : String → String
  pub decrypt : String → Option String
  pub adapt : Channel → String → Option Adapter
  pub supports_references : Adapter → Bool
  pub image_generate : Adapter → String → ImageRequest → World V → Result ImageResult × World V
  pub error_text : Error → String
  pub references_unsupported : Error → Bool
  pub ports : Ports (World V)
  pub run_once : Options → World V → Attempt × World V
  pub ctx_done : World V → Bool
  pub now : ℕ
  pub client_ip : String
  pub ref_id : String
  pub channel_ref_id : String
  pub task_id : String
  pub channel_task_id : String

-- `normalizeImageCountByModel`
unfoldable pub normalize_image_count_by_model : Model → ℤ → ℕ
normalize_image_count_by_model m n =
    let some_n = if leb_ℤ n (pos 0) then 1 else pos_part n in
    let few = if ltb 4 some_n then 4 else some_n in if m.supports_multi_image then few else 1

-- `normalizeImageSize`
abbrev pub normalize_image_size : String → String
normalize_image_size size = if str_eq size "" then "1024x1024" else size

-- The size of `normalizeImageRequestByModel`
abbrev pub channel_size : Model → String → String
channel_size m size = if m.supports_output_size then normalize_image_size size else ""

module _ {V : Type 0} where
  -- A call of the credit engine.
  abbrev pub bill : {A : Type 0} → Action A → Site V → Result A × Site V
  bill f w = let (r, s) = f w.session in (r, record w { session = s })

  abbrev pub on_keys : {A : Type 0} → Call Keys A → Site V → Result A × Site V
  on_keys f w = let (r, s) = f w.keys in (r, record w { keys = s })

  -- A call that reads and writes the images and the channels, and nothing else.
  abbrev pub apart :
      {A : Type 0}
      → (World V × Server Channels → A × (World V × Server Channels))
      → Site V
      → A × Site V
  apart f w =
      let (r, s) = f (w.images, w.channels) in (r, record w { images = s.0; channels = s.1 })

abbrev nth_or : List String → ℕ → String
nth_or [] i = ""
nth_or (x ∷ xs) zero = x
nth_or (x ∷ xs) (suc i) = nth_or xs i

module _ {V Adapter : Type 0} (h : Deps V Adapter) where
  abbrev image_data : String → StorageMode → List String → List String → List String → ℕ → ImageData
  image_data task_id cloud urls thumbs files i =
      let url = h.trim (nth_or urls i) in
      let thumb = h.trim (nth_or thumbs i) in
      record {
        url = url;
        thumb_url = if str_eq thumb "" then url else thumb;
        file_id = h.without_sed (nth_or files i);
      }
  image_data task_id local urls thumbs files i = record {
    url = h.proxy_url task_id i false;
    thumb_url = h.proxy_url task_id i true;
    file_id = h.without_sed (nth_or files i);
  }

  -- `count` entries from the i-th on.
  unfoldable pub image_data_from :
      ℕ → ℕ → String → StorageMode → List String → List String → List String → List ImageData
  image_data_from zero i task_id mode urls thumbs files = []
  image_data_from (suc count) i task_id mode urls thumbs files =
      image_data task_id mode urls thumbs files i
      ∷ image_data_from count (suc i) task_id mode urls thumbs files

  -- `buildAPIImageData`
  unfoldable pub build_api_image_data :
      String → StorageMode → List String → List String → List String → List ImageData
  build_api_image_data task_id mode urls thumbs files =
      image_data_from (max (max (length urls) (length thumbs)) (length files)) 0 task_id mode urls
        thumbs files

  abbrev pub cost_of : Model → ℕ → ℤ → String → ℤ
  cost_of m n ratio size = compute_image_cost h.lower h.trim h.split_x h.atoi m n ratio size

  -- `imageResponseAccounting`
  abbrev pub image_response_accounting : Model → List ImageData → ℤ → String → ℕ × ℤ
  image_response_accounting m images ratio size =
      if ltb 0 (length images)
      then (length images, cost_of m (length images) ratio size)
      else (0, pos 0)
