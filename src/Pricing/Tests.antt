-- ===== src/Pricing/Tests.antt =====
-- Prices of internal/billing/pricing.go at concrete models.
use gpt2api.Prelude.{◌≡◌, refl, String, Option, none, true, List, [], ◌∷◌, arith}
use gpt2api.Prelude.Int.{ℤ, pos, ◌≤ℤ◌, ◌+ℤ◌, wrap64}
use gpt2api.Pricing.{
  Model, times, cut, to_int64, compute_chat_cost, estimate_chat, resolve_image_quality_by_size,
  resolve_image_unit_price, compute_image_cost,
}
use gpt2api.Pricing.Bounds.{compute_image_cost-mono, compute_chat_cost-le_estimate}

abbrev same : String → String
same s = s

abbrev unsplit : String → List String
unsplit s = s ∷ []

abbrev no_number : String → Option ℤ
no_number s = none

abbrev model : Model
model = record {
  slug = "m";
  is_image = true;
  upstream_model_slug = "auto";
  input_price_per_1m = pos 20000;
  output_price_per_1m = pos 80000;
  image_price_per_call = pos 500;
  image_price_per_call_2k = pos 900;
  image_price_per_call_4k = pos 0;
  supports_multi_image = true;
  supports_output_size = true;
  enabled = true;
}

-- Three images of 2K at a ratio of 1.5.
abbrev price_2k : ℤ
price_2k = compute_image_cost same same unsplit no_number model 3 (pos 1500000) "1152x2048"

price_2k_value : price_2k ≡ pos 4050
unfolding compute_image_cost resolve_image_unit_price resolve_image_quality_by_size times cut
    to_int64 wrap64 ◌+ℤ◌
price_2k_value = refl

unit_price : resolve_image_unit_price same same unsplit no_number model "1152x2048" ≡ pos 900
unfolding resolve_image_unit_price resolve_image_quality_by_size
unit_price = refl

compute_image_cost-mono_example :
    (pos 0 ≤ℤ compute_image_cost same same unsplit no_number model 2 (pos 1500000) "1152x2048")
    × (compute_image_cost same same unsplit no_number model 2 (pos 1500000) "1152x2048" ≤ℤ price_2k)
compute_image_cost-mono_example =
    compute_image_cost-mono same same unsplit no_number model (pos 1500000) "1152x2048" 900 2 3
      unit_price (omega arith) (omega arith) (omega arith) (omega arith)

compute_chat_cost-le_estimate_example :
    (pos 0 ≤ℤ compute_chat_cost model 1000 300 (pos 0))
    × (compute_chat_cost model 1000 300 (pos 0) ≤ℤ estimate_chat model 1000 0 (pos 0))
compute_chat_cost-le_estimate_example =
    compute_chat_cost-le_estimate model (pos 0) 20000 80000 refl refl 1000 0 300 (omega arith)
      (omega arith) (omega arith)
