-- ===== src/Gateway/Retry.antt =====
-- internal/gateway/image_channel.go: one route is asked until it has given all the images.
use gpt2api.Prelude.{
  ℕ, zero, suc, ◌+◌, ◌-◌, ◌==◌, Option, none, some, List, [], ◌∷◌, ◌++◌, length, take, ltb, leb,
  if◌then◌else◌,
}
use gpt2api.Db.Action.{Error, said, Result, ok, err}
use gpt2api.Channel.Router.{Route}
use gpt2api.Image.Run.{World}
use gpt2api.Gateway.{ImageRequest, ImageResult, Deps}

-- `actualCount`
unfoldable pub actual_count : ImageResult → ℕ
actual_count r = length r.urls + length r.b64s

-- `expectedImageCount`
abbrev pub expected_image_count : ImageRequest → ℕ
expected_image_count req = if req.n == 0 then 1 else req.n

-- `trimAdapterImageResult`
unfoldable pub trim_adapter_image_result : ImageResult → ℕ → ImageResult
trim_adapter_image_result r max_images =
    if max_images == 0
    then r
    else if leb max_images (length r.urls)
    then record { urls = take max_images r.urls; b64s = [] }
    else record {
      urls = r.urls;
      b64s =
          if ltb (max_images - length r.urls) (length r.b64s)
          then take (max_images - length r.urls) r.b64s
          else r.b64s;
    }

-- `appendAdapterImageResult`
abbrev pub append_adapter_image_result : ImageResult → ImageResult → ImageResult
append_adapter_image_result dst src = record {
  urls = dst.urls ++ src.urls;
  b64s = dst.b64s ++ src.b64s;
}

module _ {V Adapter : Type 0} (h : Deps V Adapter) where
  -- The rest of one round of `imageGenerateWithRetry`; `again` is the next round.
  unfoldable pub after_call :
      ℕ
      → ImageResult
      → (ImageResult → Error → World V → Result ImageResult × World V)
      → Result ImageResult × World V
      → Result ImageResult × World V
  after_call expected combined again (err e, w) =
      let next = again combined e w in if h.references_unsupported e then (err e, w) else next
  after_call expected combined again (ok x, w) =
      let more =
        append_adapter_image_result combined
          (trim_adapter_image_result x (expected - actual_count combined)) in
      let empty = again combined (said "empty image response") w in
      let short = again more (said "image response count mismatch") w in
      if ltb 0 (actual_count x)
      then (if leb expected (actual_count more)
          then (ok (trim_adapter_image_result more expected), w)
          else short)
      else empty

  -- The loop of `imageGenerateWithRetry`, with the calls that are left.
  unfoldable pub generate_loop :
      ℕ
      → Route Adapter
      → ImageRequest
      → ℕ
      → ImageResult
      → Error
      → World V
      → Result ImageResult × World V
  generate_loop zero rt req expected combined last w = (
    err (if ltb 0 (actual_count combined) then said "image response count mismatch" else last),
    w,
  )
  generate_loop (suc calls) rt req expected combined last w =
      let remaining = expected - actual_count combined in
      let asked =
        h.image_generate rt.adapter rt.candidate.mapping.upstream_model
          (record req { n = remaining }) w in
      let rest =
        after_call expected combined (λ c e v. generate_loop calls rt req expected c e v) asked in
      if remaining == 0 then (ok (trim_adapter_image_result combined expected), w) else rest

  -- `imageGenerateWithRetry`
  unfoldable pub image_generate_with_retry :
      Route Adapter → ImageRequest → World V → Result ImageResult × World V
  image_generate_with_retry rt req w =
      let expected = expected_image_count req in
      generate_loop (if ltb expected 2 then 2 else expected) rt req expected
        (record { urls = []; b64s = [] }) (said "") w

  abbrev pub Picked : Type 0
  Picked = Option (Route Adapter × ImageResult) × List (Route Adapter × Error)

  abbrev pub tried :
      Route Adapter → Result ImageResult × World V → (World V → Picked × World V) → Picked × World V
  tried rt (ok x, w) next = ((some (rt, x), []), w)
  tried rt (err e, w) next =
      let ((selected, failures), v) = next w in ((selected, (rt, e) ∷ failures), v)

  -- `pickImageRoute`: the route and its result, and the failures before it.
  unfoldable pub pick_image_route : List (Route Adapter) → ImageRequest → World V → Picked × World V
  pick_image_route [] req w = ((none, []), w)
  pick_image_route (rt ∷ rts) req w =
      tried rt (image_generate_with_retry rt req w) (λ v. pick_image_route rts req v)
