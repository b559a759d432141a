-- ===== src/Pricing.antt =====
-- internal/billing/pricing.go: what a request costs, in thousandths of a credit. A ratio, a float in
-- the code, counts millionths and products with it are exact; a product of two `int64` wraps. A cost
-- beyond `int64` becomes the least `int64`, as Go's conversion of a float gives it on amd64.
-- `atoi` is strconv.Atoi on a trimmed text, `lower` strings.ToLower and `trim` strings.TrimSpace.
pub mod Bounds
mod Tests
use gpt2api.Prelude.{
  ℕ, zero, suc, ◌+◌, ◌*◌, ◌/◌, ◌-◌, ◌==◌, ◌&&◌, String, Bool, Option, none, some, List, [], ◌∷◌,
  str_eq, if◌then◌else◌,
}
use gpt2api.Prelude.Int.{ℤ, pos, negsuc, ◌+ℤ◌, leb_ℤ, ltb_ℤ, wrap64, half_word, pos_part}

-- internal/model/model.go, the columns that the gateway uses.
pub record Model : Type 0 where
  pub slug : String
  pub is_image : Bool
  pub upstream_model_slug : String
  pub input_price_per_1m : ℤ
  pub output_price_per_1m : ℤ
  pub image_price_per_call : ℤ
  pub image_price_per_call_2k : ℤ
  pub image_price_per_call_4k : ℤ
  pub supports_multi_image : Bool
  pub supports_output_size : Bool
  pub enabled : Bool

abbrev pub million : ℕ
million = 1000000

abbrev neg_of : ℕ → ℤ
neg_of zero = pos 0
neg_of (suc n) = negsuc n

-- The exact product of a price and a count.
unfoldable pub times : ℤ → ℕ → ℤ
times (pos a) n = pos (a * n)
times (negsuc a) n = neg_of (suc a * n)

-- Go's division of integers, and its conversion of a float, cut towards zero.
unfoldable pub cut : ℤ → ℤ
cut (pos a) = pos (a / million)
cut (negsuc a) = neg_of (suc a / million)

-- `if ratio <= 0 { ratio = 1.0 }`
abbrev pub ratio_or_one : ℤ → ℕ
ratio_or_one r = if leb_ℤ r (pos 0) then million else pos_part r

-- The least float that is too great for `int64` is 2 ^ 63, to which a number from 2 ^ 63 - 512 rounds.
unfoldable pub to_int64 : ℤ → ℤ
to_int64 v =
    if leb_ℤ (negsuc (half_word - 1)) v && ltb_ℤ v (pos (half_word - 512))
    then v
    else negsuc (half_word - 1)

-- `int64(x * ratio + 0.5)`
abbrev pub scaled : ℤ → ℕ → ℤ
scaled x ratio = to_int64 (cut (times x ratio +ℤ pos 500000))

-- `ComputeChatCost`
unfoldable pub compute_chat_cost : Model → ℕ → ℕ → ℤ → ℤ
compute_chat_cost m prompt_tokens completion_tokens ratio =
    let input = cut (wrap64 (times m.input_price_per_1m prompt_tokens)) in
    let output = cut (wrap64 (times m.output_price_per_1m completion_tokens)) in
    scaled (wrap64 (input +ℤ output)) (ratio_or_one ratio)

-- `EstimateChat`
unfoldable pub estimate_chat : Model → ℕ → ℕ → ℤ → ℤ
estimate_chat m prompt_tokens max_tokens ratio =
    compute_chat_cost m prompt_tokens (if max_tokens == 0 then 2048 else max_tokens) ratio

pub data Quality : Type 0 where
  quality_1k quality_2k quality_4k : Quality

-- `imageQualityBySize`
abbrev pub image_quality_by_size : List (String × Quality)
image_quality_by_size =
    ("1024x1024", quality_1k)
    ∷ ("2048x2048", quality_2k)
    ∷ ("2880x2880", quality_4k)
    ∷ ("1040x832", quality_1k)
    ∷ ("2080x1664", quality_2k)
    ∷ ("3200x2560", quality_4k)
    ∷ ("720x1280", quality_1k)
    ∷ ("1152x2048", quality_2k)
    ∷ ("2160x3840", quality_4k)
    ∷ ("1280x720", quality_1k)
    ∷ ("2048x1152", quality_2k)
    ∷ ("3840x2160", quality_4k)
    ∷ ("1024x768", quality_1k)
    ∷ ("2048x1536", quality_2k)
    ∷ ("3264x2448", quality_4k)
    ∷ ("1008x672", quality_1k)
    ∷ ("2016x1344", quality_2k)
    ∷ ("3504x2336", quality_4k)
    ∷ ("832x1040", quality_1k)
    ∷ ("1664x2080", quality_2k)
    ∷ ("2560x3200", quality_4k)
    ∷ ("768x1024", quality_1k)
    ∷ ("1536x2048", quality_2k)
    ∷ ("2448x3264", quality_4k)
    ∷ ("672x1008", quality_1k)
    ∷ ("1344x2016", quality_2k)
    ∷ ("2336x3504", quality_4k)
    ∷ ("1344x576", quality_1k)
    ∷ ("2016x864", quality_2k)
    ∷ ("3696x1584", quality_4k)
    ∷ []

abbrev pub listed : String → List (String × Quality) → Option Quality
listed size [] = none
listed size ((k, q) ∷ t) = if str_eq size k then some q else listed size t

-- The areas half way between 1024 × 1024, 2048 × 2048 and 2880 × 2880.
abbrev pub area_2k : ℕ
area_2k = (1024 * 1024 + 2048 * 2048) / 2

abbrev pub area_4k : ℕ
area_4k = (2048 * 2048 + 2880 * 2880) / 2

abbrev pub quality_of_area : Option ℤ → Quality
quality_of_area none = quality_1k
quality_of_area (some area) =
    if ltb_ℤ area (pos area_2k)
    then quality_1k
    else if ltb_ℤ area (pos area_4k)
    then quality_2k
    else quality_4k

module _ (lower trim : String → String) (split_x : String → List String)
    (atoi : String → Option ℤ) where
  -- One side of `parseImageSize`
  abbrev side : String → Option ℕ
  side text = elim (atoi (trim text)) [
    | none ↦ none
    | some n ↦ if leb_ℤ n (pos 0) then none else some (pos_part n)
  ]

  abbrev area_of : List String → Option ℤ
  area_of (w ∷ h ∷ []) = elim (side w) [
    | none ↦ none
    | some a ↦ elim (side h) [ none ↦ none | some b ↦ some (wrap64 (pos (a * b))) ]
  ]
  area_of _ = none

  -- `parseImageSize`
  pub parse_image_size : String → Option ℤ
  parse_image_size size = area_of (split_x (trim (lower size)))

  -- `ResolveImageQualityBySize`
  unfoldable pub resolve_image_quality_by_size : String → Quality
  resolve_image_quality_by_size size =
      let normalized = lower (trim size) in
      elim (listed normalized image_quality_by_size) [
        | some q ↦ q
        | none ↦ quality_of_area (parse_image_size normalized)
      ]

  abbrev pub price_at : Model → Quality → ℤ
  price_at m quality_1k = m.image_price_per_call
  price_at m quality_2k =
      if ltb_ℤ (pos 0) m.image_price_per_call_2k
      then m.image_price_per_call_2k
      else m.image_price_per_call
  price_at m quality_4k =
      if ltb_ℤ (pos 0) m.image_price_per_call_4k
      then m.image_price_per_call_4k
      else m.image_price_per_call

  -- `ResolveImageUnitPrice`
  unfoldable pub resolve_image_unit_price : Model → String → ℤ
  resolve_image_unit_price m size = price_at m (resolve_image_quality_by_size size)

  -- `ComputeImageCost`
  unfoldable pub compute_image_cost : Model → ℕ → ℤ → String → ℤ
  compute_image_cost m n ratio size =
      scaled (wrap64 (times (resolve_image_unit_price m size) (if n == 0 then 1 else n)))
        (ratio_or_one ratio)
