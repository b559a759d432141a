-- ===== src/Gateway/Dispatch.antt =====
-- internal/gateway/image_channel.go: `dispatchImageToChannel`, a request that channels serve. The
-- statements of different tables whose order nothing observes are grouped.
use gpt2api.Prelude.{
  ℕ, ◌+◌, ◌==◌, String, true, false, none, some, Option, List, [], ◌∷◌, length, ltb, if◌then◌else◌,
}
use gpt2api.Prelude.Int.{ℤ, pos, ltb_ℤ, leb_ℤ}
use gpt2api.Db.Action.{Error, said, Result, ok, err}
use gpt2api.Db.Call.{Server}
use gpt2api.ApiKey.{ApiKey}
use gpt2api.Channel.{Channels, mark_health}
use gpt2api.Channel.Router.{Route, resolve}
use gpt2api.Pricing.{Model}
use gpt2api.Image.{mark_failed, mark_success, normalize_storage_mode}
use gpt2api.Image.Runner.{Source, RunResult}
use gpt2api.Image.Archive.{archive_external_images, and_then}
use gpt2api.Image.Run.{World, on_tasks}
use gpt2api.Gateway.{
  Deps, Site, Usage, Reply, Request, ImageRequest, ImageResult, Verdict, lost, won, apart, cost_of,
  build_api_image_data,
}
use gpt2api.Gateway.Charge.{Answer, refuse, charge}
use gpt2api.Gateway.References.{with_task, new_task}
use gpt2api.Gateway.Retry.{actual_count, pick_image_route, Picked}

abbrev text_of : Error → String
text_of (said text) = text
text_of e = ""

module _ {V Adapter : Type 0} (h : Deps V Adapter) where
  abbrev Both : Type 0
  Both = World V × Server Channels

  -- `filterReferenceCapableImageRoutes`
  unfoldable pub filter_reference_capable_image_routes : List (Route Adapter) → List (Route Adapter)
  filter_reference_capable_image_routes [] = []
  filter_reference_capable_image_routes (rt ∷ rts) =
      let rest = filter_reference_capable_image_routes rts in
      if h.supports_references rt.adapter then rt ∷ rest else rest

  -- `uploadReferenceImagesForChannel`, once there is an uploader
  unfoldable pub upload_references : ℕ → List Source → World V → Result (List String) × World V
  upload_references i [] w = (ok [], w)
  upload_references i (src ∷ rest) w =
      and_then (h.ports.upload (record src { index = i }) "" w)
        (λ url v. and_then (upload_references (i + 1) rest v) (λ urls u. (ok (url ∷ urls), u)))

  abbrev plain_request : Request → ℕ → String → ImageRequest
  plain_request req n size = record {
    model = req.model;
    prompt = req.prompt;
    n = n;
    size = size;
    format = req.response_format;
    references = [];
  }

  abbrev with_references :
      ImageRequest
      → List (Route Adapter)
      → List Source
      → World V
      → Result (ImageRequest × List (Route Adapter)) × World V
  with_references ir [] refs w = (err (said "image_reference_unsupported"), w)
  with_references ir (rt ∷ rts) refs w =
      let (urls, v) = and_then (h.ports.cloud_uploader, w) (λ _ v. upload_references 0 refs v) in
      elim urls [
        | err e ↦ (err (said "image_reference_upload_error"), v)
        | ok l ↦ (ok (record ir { references = l }, rt ∷ rts), v)
      ]

  -- `buildChannelImageRequest`
  unfoldable pub build_channel_image_request :
      List (Route Adapter)
      → ImageRequest
      → List Source
      → World V
      → Result (ImageRequest × List (Route Adapter)) × World V
  build_channel_image_request routes ir refs w =
      let full = with_references ir (filter_reference_capable_image_routes routes) refs w in
      if ltb 0 (length refs) then full else (ok (ir, routes), w)

  -- `MarkHealth` after the routes that failed
  unfoldable pub mark_failures : List (Route Adapter × Error) → Server Channels → Server Channels
  mark_failures [] c = c
  mark_failures ((rt, e) ∷ rest) c = mark_failures rest (
      (mark_health h.now rt.candidate.mapping.channel_id rt.candidate.channel false (h.error_text e)
        c).1)

  abbrev lost_task : String → String → Both → Verdict × Both
  lost_task id code (w, c) = (lost 0 502 code code, ((on_tasks (mark_failed h.now code id) w).1, c))

  abbrev saved :
      String → RunResult → ℕ → ℤ → Server Channels → Result (Unit {0}) × World V → Verdict × Both
  saved id r n cost c (err e, w) = (lost 0 500 "billing_error" "internal_error", (w, c))
  saved id r n cost c (ok _, w) = (
    won 0 (build_api_image_data h id r.storage_mode r.signed_urls r.thumb_urls []) n cost,
    (w, c),
  )

  abbrev archived : String → ℕ → ℤ → Server Channels → Result RunResult × World V → Verdict × Both
  archived id n cost c (err e, w) = lost_task id "archive_failed" (w, c)
  archived id n cost c (ok r, w) =
      saved id r n cost c
        (on_tasks (mark_success h.now "" [] r.signed_urls r.thumb_urls r.storage_mode cost id) w)

  abbrev decoded : String → ImageResult → ℤ → Result (List Source) → Both → Verdict × Both
  decoded id x cost (err e) both = lost_task id "archive_failed" both
  decoded id x cost (ok inline) (w, c) =
      archived id (actual_count x) cost c (archive_external_images h.ports id x.urls inline w)

  -- The cost of what a channel gave, by the ratio of the channel.
  abbrev pub final_cost : Model → ℤ → String → Route Adapter → ImageResult → ℤ
  final_cost m ratio size rt x =
      let by = rt.candidate.channel.ratio in
      cost_of h m (actual_count x)
        (h.ratio_times ratio (if leb_ℤ by (pos 0) then pos 1000000 else by)) size

  -- From the picked route on
  abbrev picked :
      String → Model → ℤ → String → Picked h × World V → Server Channels → Verdict × Both
  picked id m ratio size ((none, failures), w) c =
      lost_task id "upstream_error" (w, mark_failures failures c)
  picked id m ratio size ((some (rt, x), failures), w) c =
      let marked =
        (mark_health h.now rt.candidate.mapping.channel_id rt.candidate.channel true ""
          (mark_failures failures c)).1 in
      if actual_count x == 0
      then lost_task id "upstream_error" (w, marked)
      else decoded id x (final_cost m ratio size rt x) (h.decode_inline x.b64s (length x.urls))
          (w, marked)

  -- What `dispatchImageToChannel` does between its reservation and the settlement.
  unfoldable pub attempt_channel :
      ℕ
      → ℕ
      → Model
      → ℤ
      → ℤ
      → ImageRequest
      → List (Route Adapter)
      → List Source
      → Both
      → Verdict × Both
  attempt_channel user_id key_id m ratio cost ir routes refs (w, c) =
      let mode = normalize_storage_mode h.ports.image_storage_mode in
      with_task h.ports h.now
        (new_task h.channel_task_id user_id key_id ir.prompt ir.n ir.size mode (length refs) cost)
        refs (λ v. (v, c))
        (λ v. picked h.channel_task_id m ratio ir.size (pick_image_route h routes ir v) c) w

  abbrev built :
      ℕ
      → ApiKey
      → Model
      → ℤ
      → ImageRequest
      → List Source
      → Usage
      → Site V
      → Result (ImageRequest × List (Route Adapter)) × World V
      → Answer V
  built key_id ak m ratio ir refs rec w (err e, v) =
      let code = text_of e in refuse 502 code code rec (record w { images = v })
  built key_id ak m ratio ir refs rec w (ok (full, routes), v) =
      let cost = cost_of h m full.n ratio full.size in
      charge (λ actual. ltb_ℤ (pos 0) actual)
        (record {
          user_id = ak.user_id;
          key_id = key_id;
          cost = cost;
          ref_id = h.channel_ref_id;
          task_id = h.channel_task_id;
          now = h.now;
          client_ip = h.client_ip;
        })
        (record rec { request_id = h.channel_ref_id })
        (apart (attempt_channel ak.user_id key_id m ratio cost full routes refs))
        (record w { images = v })

  abbrev resolved :
      ℕ
      → ApiKey
      → Model
      → ℤ
      → ImageRequest
      → List Source
      → Usage
      → Site V
      → Result (List (Route Adapter)) × Server Channels
      → Option (Reply × Usage) × Site V
  resolved key_id ak m ratio ir refs rec w (err e, c) = (none, record w { channels = c })
  resolved key_id ak m ratio ir refs rec w (ok [], c) = (none, record w { channels = c })
  resolved key_id ak m ratio ir refs rec w (ok (rt ∷ rts), c) =
      let v : Site V = record w { channels = c } in
      let answer =
        built key_id ak m ratio ir refs rec v
          (build_channel_image_request (rt ∷ rts) ir refs w.images) in
      (some answer.0, answer.1)

  -- `dispatchImageToChannel`: the answer, or nothing where no channel serves the model.
  unfoldable pub dispatch_image_to_channel :
      ℕ
      → ApiKey
      → Model
      → ℤ
      → Request
      → ℕ
      → String
      → List Source
      → Usage
      → Site V
      → Option (Reply × Usage) × Site V
  dispatch_image_to_channel key_id ak m ratio req n size refs rec w =
      resolved key_id ak m ratio (plain_request req n size) refs rec w
        (resolve h.decrypt h.adapt m.slug "image" w.channels)
