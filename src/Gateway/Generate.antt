-- ===== src/Gateway/Generate.antt =====
-- internal/gateway/images.go: `ImageGenerations`, from a key and a request that are read.
use gpt2api.Prelude.{
  ℕ, ◌==◌, ◌||◌, String, false, none, some, Option, List, ◌∷◌, length, ltb, str_eq, not,
  if◌then◌else◌,
}
use gpt2api.Prelude.Int.{ℤ, pos, negsuc, ltb_ℤ}
use gpt2api.Db.Action.{Result, ok, err}
use gpt2api.ApiKey.{ApiKey, model_allowed}
use gpt2api.Pricing.{Model, million}
use gpt2api.RateLimit.{allow_rpm, allowed, denied, failed}
use gpt2api.Image.{mark_failed, update_cost, normalize_storage_mode}
use gpt2api.Image.Runner.{Source, RunResult, Options}
use gpt2api.Image.Run.{World, on_tasks, run}
use gpt2api.Gateway.{
  Deps, Site, Usage, Reply, Request, ImageData, Verdict, lost, won, build_api_image_data, cost_of,
  image_response_accounting, normalize_image_count_by_model, normalize_image_size, channel_size,
  refused,
}
use gpt2api.Gateway.Charge.{Bill, Answer, refuse, charge}
use gpt2api.Gateway.References.{with_task, new_task}
use gpt2api.Gateway.Dispatch.{dispatch_image_to_channel}

module _ {V Adapter : Type 0} (h : Deps V Adapter) where
  -- What `Run` is asked for.
  abbrev pub run_options : Model → String → ℕ → String → ℕ → Options
  run_options m prompt n size references = record {
    task_id = h.task_id;
    upstream_model = m.upstream_model_slug;
    prompt = h.final_prompt prompt size;
    size = size;
    n = n;
    max_attempts = if ltb 0 references then 1 else 2;
    references = references;
  }

  abbrev pub failed_run : RunResult → World V → Verdict × World V
  failed_run r w =
      let code = if str_eq r.error_code "" then "upstream_error" else r.error_code in
      let busy = str_eq r.error_code "no_available_account" || str_eq r.error_code "rate_limited" in
      (lost r.account_id (if busy then 503 else 502) code code, w)

  abbrev pub counted : RunResult → List ImageData → ℕ × ℤ → World V → Verdict × World V
  counted r images (n, actual) w =
      if n == 0
      then (
        lost r.account_id 502 "upstream_error" "upstream_error",
        (on_tasks (mark_failed h.now "upstream_error" h.task_id) w).1,
      )
      else (won r.account_id images n actual, w)

  -- From the result of `Run` to the settlement
  unfoldable pub after_run : Model → ℤ → String → RunResult × World V → Verdict × World V
  after_run m ratio size (r, w) =
      let images =
        build_api_image_data h h.task_id r.storage_mode r.signed_urls r.thumb_urls r.file_ids in
      let done = counted r images (image_response_accounting h m images ratio size) w in
      if r.is_success then done else failed_run r w

  -- What `ImageGenerations` does between its reservation and the settlement.
  unfoldable pub attempt_local :
      ℕ → ℕ → Model → ℤ → ℤ → String → ℕ → String → List Source → World V → Verdict × World V
  attempt_local user_id key_id m ratio cost prompt n size refs w =
      with_task h.ports h.now
        (new_task h.task_id user_id key_id prompt n size
          (normalize_storage_mode h.ports.image_storage_mode) (length refs) cost)
        refs (λ v. v)
        (λ v.
          after_run m ratio size
            (run h.run_once h.ctx_done h.ports h.now (run_options m prompt n size (length refs)) v))
        w

  abbrev pub alone : (World V → Verdict × World V) → Site V → Verdict × Site V
  alone f w = let (r, v) = f w.images in (r, record w { images = v })

  -- `UpdateCost`, after a settlement; its error is dropped.
  unfoldable pub write_cost : Answer V → Answer V
  write_cost ((reply, rec), w) =
      let written = (on_tasks (update_cost rec.credit_cost h.task_id) w.images).1 in
      ((reply, rec), if rec.is_success then record w { images = written } else w)

  abbrev pub local_bill : ℕ → ApiKey → ℤ → Bill
  local_bill key_id ak cost = record {
    user_id = ak.user_id;
    key_id = key_id;
    cost = cost;
    ref_id = h.ref_id;
    task_id = h.task_id;
    now = h.now;
    client_ip = h.client_ip;
  }

  -- A request that the accounts of the pool serve
  unfoldable pub generate_locally :
      ℕ → ApiKey → Model → ℤ → String → ℕ → String → List Source → Usage → Site V → Answer V
  generate_locally key_id ak m ratio prompt n size refs rec w =
      let cost = cost_of h m n ratio size in
      write_cost (
        charge (λ _. ltb_ℤ (pos 0) cost) (local_bill key_id ak cost) rec
          (alone (attempt_local ak.user_id key_id m ratio cost prompt n size refs)) w)

  abbrev or_locally : Option (Reply × Usage) × Site V → (Site V → Answer V) → Answer V
  or_locally (some answer, w) next = (answer, w)
  or_locally (none, w) next = next w

  -- From the reference images on
  abbrev with_references :
      ℕ → ApiKey → Model → ℤ → Request → ℕ → Usage → Site V → Result (List Source) → Answer V
  with_references key_id ak m ratio req n rec w (err e) =
      refuse 400 "invalid_request_error" "invalid_reference_image" rec w
  with_references key_id ak m ratio req n rec w (ok refs) =
      or_locally
        (dispatch_image_to_channel h key_id ak m ratio req n (channel_size m req.size) refs rec w)
        (generate_locally key_id ak m ratio req.prompt n (normalize_image_size req.size) refs rec)

  -- The ratio of the user's group, and the limit of requests in a minute.
  abbrev ratio_and_cap : ApiKey → Option (ℤ × ℤ) → ℤ × ℤ
  ratio_and_cap ak none = (pos million, ak.rpm)
  ratio_and_cap ak (some (ratio, limit)) =
      (ratio, elim ak.rpm [ pos n ↦ if n == 0 then limit else ak.rpm | negsuc n ↦ ak.rpm ])

  -- From the model on
  abbrev with_model : ℕ → ApiKey → Request → Usage → Site V → Option Model → Answer V
  with_model key_id ak req rec w none = refuse 400 "model_not_found" "model_not_found" rec w
  with_model key_id ak req rec w (some m) =
      let (ratio, cap) = ratio_and_cap ak (h.of_user ak.user_id) in
      let (answer, limits) =
        allow_rpm h.rpm_key h.tpm_key h.limiter_fails h.now key_id cap w.limits in
      let limited : Site V = record w { limits = limits } in
      let named : Usage = record rec { slug = m.slug } in
      let served_by =
        with_references key_id ak m ratio req (normalize_image_count_by_model m req.n) named limited
          (h.decode_references req.reference_images) in
      if not m.enabled
      then refuse 400 "model_not_found" "model_not_found" rec w
      else if not m.is_image
      then refuse 400 "model_type_mismatch" "model_type_mismatch" rec w
      else elim answer [
        | allowed ↦ served_by
        | denied ↦ refuse 429 "rate_limit_rpm" "rate_limit_rpm" named limited
        | failed ↦ served_by
      ]

  abbrev logged : Answer V → Reply × Site V
  logged ((reply, rec), w) = (reply, record w { log = rec ∷ w.log })

  abbrev model_or_default : Request → Request
  model_or_default req = record req {
    model = if str_eq req.model "" then "gpt-image-2" else req.model;
  }

  abbrev new_usage : ℕ → ApiKey → Usage
  new_usage key_id ak = record {
    user_id = ak.user_id;
    key_id = key_id;
    slug = "";
    account_id = 0;
    request_id = h.ref_id;
    is_success = false;
    error_code = "";
    image_count = 0;
    credit_cost = pos 0;
  }

  -- `ImageGenerations`
  unfoldable pub image_generations : ℕ → ApiKey → Request → Site V → Reply × Site V
  image_generations key_id ak given w =
      let req = model_or_default given in
      let rec = new_usage key_id ak in
      let asked = with_model key_id ak req rec w (h.by_slug req.model) in
      if str_eq (h.trim given.prompt) ""
      then (refused 400 "invalid_request_error", w)
      else logged (
          if model_allowed h.decode_list ak req.model
          then asked
          else refuse 403 "model_not_allowed" "model_not_allowed" rec w)
