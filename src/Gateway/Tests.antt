-- ===== src/Gateway/Tests.antt =====
-- Requests for images at concrete inputs.
use gpt2api.Prelude.{
  ℕ, ◌≡◌, refl, arith, String, true, false, none, some, [], ◌∷◌, ◌==◌, str_eq, if◌then◌else◌,
}
use gpt2api.Prelude.Int.{pos, ◌<ℤ◌, ◌+ℤ◌, wrap64, InInt64, int_laws, ◌≤ℤ◌}
use gpt2api.Db.Rows.{Database, User}
use gpt2api.Db.Action.{Result, ok, err, said}
use gpt2api.ApiKey.{ApiKey}
use gpt2api.Channel.{Channel, Mapping, healthy}
use gpt2api.Channel.Router.{Route}
use gpt2api.Pricing.{
  Model, times, cut, to_int64, compute_image_cost, resolve_image_unit_price,
  resolve_image_quality_by_size,
}
use gpt2api.Image.{local}
use gpt2api.Image.Runner.{Attempt, Options, started}
use gpt2api.Image.Archive.{Ports}
use gpt2api.Image.Run.{World}
use gpt2api.Gateway.{Deps, Site, Usage, ImageRequest, ImageResult, won, cost_of}
use gpt2api.Gateway.Charge.{Bill, charge}
use gpt2api.Gateway.Charged.{IsCharged, IsCovered, charge-IsCharged}
use gpt2api.Gateway.Retry.{pick_image_route}
use gpt2api.Gateway.Complete.{PicksFirst, pick_image_route-PicksFirst}
use gpt2api.Gateway.Generate.{generate_locally, local_bill}
use gpt2api.Gateway.Exact.{TakesExactly, charge-TakesExactly}
use gpt2api.Gateway.Owed.{generate_locally-IsCharged, generate_locally-TakesExactly}
use gpt2api.Billing.Calm.{calm}
use gpt2api.Db.Table.{find}

abbrev same : String → String
same s = s

abbrev model : Model
model = record {
  slug = "gpt-image-2";
  is_image = true;
  upstream_model_slug = "auto";
  input_price_per_1m = pos 0;
  output_price_per_1m = pos 0;
  image_price_per_call = pos 500;
  image_price_per_call_2k = pos 0;
  image_price_per_call_4k = pos 0;
  supports_multi_image = true;
  supports_output_size = true;
  enabled = true;
}

abbrev ports : Ports (World ℕ)
ports = record {
  image_storage_mode = "local";
  has_files = true;
  cloud_uploader = err (said "not configured");
  image_upload_channels = [];
  upload = λ src channel w. (err (said "no upload"), w);
  build_thumbnail = λ image_data. err (said "no thumbnail");
  download = λ url w. (ok ("bytes", "image/png"), w);
  save_task_references = λ id images w. (ok tt, w);
  save_task_images = λ id images w. (ok tt, w);
  file_named = λ prefix id i. id;
  reference_named = λ prefix id i. id;
  inline_url = λ i. "inline";
}

-- An upstream that draws one image at each attempt.
abbrev draws : Options → World ℕ → Attempt × World ℕ
draws o w = (
  record {
    passed = true;
    status = "";
    message = "";
    result = record (started local) { account_id = 7; file_ids = "f" ∷ []; signed_urls = "u" ∷ [] };
  },
  w,
)

-- The adapter "good" gives two images at each call, and every other one fails.
abbrev calls : String → String → ImageRequest → World ℕ → Result ImageResult × World ℕ
calls adapter upstream req w = (
  if str_eq adapter "good"
      then ok (record { urls = "a" ∷ "b" ∷ []; b64s = [] })
      else err (said "down"),
  w,
)

abbrev deps : Deps ℕ String
deps = record {
  lower = same;
  trim = same;
  split_x = λ s. s ∷ [];
  atoi = λ s. none;
  decode_list = λ s. none;
  rpm_key = λ id. "rpm";
  tpm_key = λ id. "tpm";
  limiter_fails = false;
  ratio_times = λ a b. a;
  by_slug = λ s. some model;
  of_user = λ id. none;
  decode_references = λ l. ok [];
  decode_inline = λ l i. ok [];
  final_prompt = λ prompt size. prompt;
  proxy_url = λ id i thumb. "/p/img";
  without_sed = same;
  decrypt = λ s. some s;
  adapt = λ c key. some key;
  supports_references = λ a. false;
  image_generate = calls;
  error_text = λ e. "error";
  references_unsupported = λ e. false;
  ports = ports;
  run_once = draws;
  ctx_done = λ w. false;
  now = 10;
  client_ip = "10.0.0.1";
  ref_id = "r1";
  channel_ref_id = "r2";
  task_id = "img_1";
  channel_task_id = "img_2";
}

abbrev alice : User
alice = record { credit_balance = pos 5000; credit_frozen = pos 0; version = 0; deleted = false }

abbrev shop : Database
shop = record {
  users = (1, alice) ∷ [];
  transactions = [];
  codes = [];
  checkins = [];
  orders = [];
  packages = [];
  next_code = 1;
  next_checkin = 1;
  next_order = 1;
}

abbrev key : ApiKey
key = record {
  user_id = 1;
  name = "k";
  key_prefix = "sk";
  key_hash = "h";
  quota_limit = pos 0;
  quota_used = pos 0;
  allowed_models = none;
  allowed_ips = none;
  rpm = pos 0;
  tpm = pos 0;
  expires_at = none;
  enabled = true;
  last_used_at = none;
  last_used_ip = "";
  deleted = false;
}

abbrev site : Site ℕ
site = record {
  session = record { db = shop; turn = 0; faulty = λ n. n == 30 };
  images = record {
    state = record { outside = 0; tasks = []; accounts = [] };
    turn = 0;
    faulty = λ n. false;
  };
  keys = record {
    state = record { rows = (2, key) ∷ []; next = 3 };
    turn = 0;
    faulty = λ n. false;
  };
  channels = record {
    state = record { channels = []; mappings = []; next_channel = 1; next_mapping = 1 };
    turn = 0;
    faulty = λ n. false;
  };
  limits = [];
  log = [];
}

abbrev usage : Usage
usage = record {
  user_id = 1;
  key_id = 2;
  slug = "gpt-image-2";
  account_id = 0;
  request_id = "r1";
  is_success = false;
  error_code = "";
  image_count = 0;
  credit_cost = pos 0;
}

-- Two images at the price of one K.
two_images : cost_of deps model 2 (pos 1000000) "1024x1024" ≡ pos 1000
unfolding compute_image_cost resolve_image_unit_price resolve_image_quality_by_size times cut
    to_int64 wrap64 ◌+ℤ◌
two_images = refl

unit_price :
    resolve_image_unit_price same same (λ s. s ∷ []) (λ s. none) model "1024x1024" ≡ pos 500
unfolding resolve_image_unit_price resolve_image_quality_by_size
unit_price = refl

some_cost : pos 0 <ℤ cost_of deps model 2 (pos 1000000) "1024x1024"
some_cost = rw two_images (omega arith)

cost_fits : InInt64 (cost_of deps model 2 (pos 1000000) "1024x1024")
cost_fits = rw two_images (record { above = omega arith; below = omega arith })

abbrev paid : Bill
paid = local_bill deps 2 key (cost_of deps model 2 (pos 1000000) "1024x1024")

found_alice : find 1 shop.users ≡ some alice
unfolding find
found_alice = refl

covers_cost : cost_of deps model 2 (pos 1000000) "1024x1024" ≤ℤ pos 5000
covers_cost = rw two_images (omega arith)

frozen_fits : InInt64 (pos 0 +ℤ cost_of deps model 2 (pos 1000000) "1024x1024")
frozen_fits = rw two_images (record { above = omega int_laws; below = omega int_laws })

generate_locally-TakesExactly_example : TakesExactly paid alice shop (
    generate_locally deps 2 key model
      (pos 1000000)
      "a cat"
      2
      "1024x1024"
      []
      usage
      (record site { session = calm shop 0 }))
generate_locally-TakesExactly_example =
    generate_locally-TakesExactly deps 2 key model (pos 1000000) "a cat" "1024x1024" 2 500 [] usage
      site shop 0 alice (λ o w. refl) (omega arith) unit_price (omega arith) some_cost cost_fits
      found_alice refl covers_cost (omega arith)
      (record { above = omega arith; below = omega arith }) frozen_fits

generate_locally-IsCharged_example :
    IsCharged paid shop
      (generate_locally deps 2 key model (pos 1000000) "a cat" 2 "1024x1024" [] usage site)
    × IsCovered paid
        (generate_locally deps 2 key model (pos 1000000) "a cat" 2 "1024x1024" [] usage site)
generate_locally-IsCharged_example =
    generate_locally-IsCharged deps 2 key model (pos 1000000) "a cat" "1024x1024" 2 500 [] usage
      site (λ o w. refl) (omega arith) unit_price (omega arith) some_cost cost_fits

abbrev bill : Bill
bill = record {
  user_id = 1;
  key_id = 2;
  cost = pos 1000;
  ref_id = "r1";
  task_id = "img_1";
  now = 10;
  client_ip = "";
}

charge-IsCharged_example :
    IsCharged bill shop (charge (λ a. true) bill usage (λ w. (won 7 [] 1 (pos 400), w)) site)
charge-IsCharged_example =
    charge-IsCharged bill shop (omega arith) (record { above = omega arith; below = omega arith })
      (λ a. true) usage (λ w. (won 7 [] 1 (pos 400), w)) site (λ v. refl)
      (λ v. (omega arith, record { above = omega arith; below = omega arith })) refl

charge-TakesExactly_example : TakesExactly bill alice shop (
    charge
      (λ a. true)
      bill
      usage
      (λ w. (won 7 [] 1 (pos 400), w))
      (record site { session = calm shop 0 }))
charge-TakesExactly_example =
    charge-TakesExactly ℕ bill shop 0 alice found_alice refl (omega arith)
      (record { above = omega arith; below = omega arith }) (omega arith) (omega arith)
      (record { above = omega arith; below = omega arith })
      (record { above = omega int_laws; below = omega int_laws }) (λ a. true) usage
      (λ w. (won 7 [] 1 (pos 400), w)) site (λ a. refl) (λ v. refl)
      (λ v. (omega arith, omega arith))

abbrev channel : Channel
channel = record {
  name = "c";
  kind = "openai";
  base_url = "";
  api_key_enc = "";
  enabled = true;
  priority = pos 1;
  weight = pos 1;
  timeout_s = pos 60;
  ratio = pos 1000000;
  extra = none;
  status = healthy;
  fail_count = 0;
  last_test_at = none;
  last_test_ok = none;
  last_test_error = "";
  remark = "";
  deleted = false;
}

abbrev mapping : Mapping
mapping = record {
  channel_id = 1;
  local_model = "gpt-image-2";
  upstream_model = "dall-e";
  modality = "image";
  enabled = true;
  priority = pos 1;
}

abbrev route : String → Route String
route adapter = record {
  candidate = record { mapping_id = 1; mapping = mapping; channel = channel };
  adapter = adapter;
}

abbrev wanted : ImageRequest
wanted = record {
  model = "gpt-image-2";
  prompt = "a cat";
  n = 3;
  size = "";
  format = "url";
  references = [];
}

pick_image_route-PicksFirst_example :
    PicksFirst deps wanted site.images
      (route "bad" ∷ route "good" ∷ [])
      (pick_image_route deps (route "bad" ∷ route "good" ∷ []) wanted site.images)
pick_image_route-PicksFirst_example =
    pick_image_route-PicksFirst deps wanted (route "bad" ∷ route "good" ∷ []) site.images
