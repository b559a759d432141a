-- ===== src/Pricing/Bounds.antt =====
-- More tokens or images never cost less in internal/billing/pricing.go.
use gpt2api.Prelude.{
  ℕ, zero, suc, ◌+◌, ◌*◌, ◌/◌, ◌≤◌, ◌<◌, ◌-◌, ◌≡◌, ap, String, Option, List, arith, ◌==◌,
  if◌then◌else◌,
}
use gpt2api.Prelude.Int.{ℤ, pos, ◌+ℤ◌, ◌≤ℤ◌, ◌<ℤ◌, wrap64, wrap64-InInt64_self, int_laws, half_word}
use gpt2api.Pricing.{
  Model, million, times, cut, to_int64, ratio_or_one, scaled, compute_chat_cost, estimate_chat,
  resolve_image_unit_price, compute_image_cost,
}

mul_mono : (a b c : ℕ) → b ≤ c → a * b ≤ a * c
mul_mono zero b c h = omega arith
mul_mono (suc a) b c h = omega (arith, mul_mono a b c h)

mul_mono_left : (a b c : ℕ) → b ≤ c → b * a ≤ c * a
mul_mono_left zero b c h = omega arith
mul_mono_left (suc a) b c h = omega (arith, mul_mono_left a b c h)

-- A price that the product does not overflow.
wrap64-pos : (n : ℕ) → n < half_word → wrap64 (pos n) ≡ pos n
wrap64-pos n h = wrap64-InInt64_self (pos n) (record { above = omega arith; below = omega arith })

-- The cost in whole thousandths of a credit, before its conversion.
abbrev rounded : ℕ → ℕ → ℕ
rounded a r = (a * r + 500000) / million

-- The conversion of the cost does not overflow.
abbrev pub Converts : ℕ → ℕ → Type 0
Converts a r = rounded a r < half_word - 512

scaled-Converts : (a r : ℕ) → Converts a r → scaled (pos a) r ≡ pos (rounded a r)
unfolding times cut ◌+ℤ◌ to_int64
scaled-Converts a r h = ground arith

-- An overflow is not positive.
Converts-positive : (a r : ℕ) → pos 0 <ℤ scaled (pos a) r → Converts a r
unfolding times cut ◌+ℤ◌ to_int64
Converts-positive a r h = ground arith

Converts-small : (a r : ℕ) → a * r + 500000 < million * (half_word / 2) → Converts a r
Converts-small a r h = omega arith

Converts-mono : (a b r : ℕ) → a ≤ b → Converts b r → Converts a r
Converts-mono a b r le h = let k = mul_mono_left r a b le in omega arith

-- A smaller part of a cost that does not overflow.
scaled-between :
    (a b r : ℕ)
    → a ≤ b
    → Converts b r
    → (pos 0 ≤ℤ scaled (pos a) r) × (scaled (pos a) r ≤ℤ scaled (pos b) r)
scaled-between a b r le h =
    let k = mul_mono_left r a b le in
    rw (scaled-Converts a r (Converts-mono a b r le h), scaled-Converts b r h)
      (ground arith, ground arith)

sum : (x y : ℕ) → x + y < half_word → wrap64 (pos x +ℤ pos y) ≡ pos (x + y)
sum x y h = let e : pos x +ℤ pos y ≡ pos (x + y) = grind int_laws in rw e (wrap64-pos (x + y) h)

module _ (lower trim : String → String) (split_x : String → List String) (atoi : String → Option ℤ)
    (m : Model) (ratio : ℤ) (size : String) where
  abbrev cost : ℕ → ℤ
  cost n = compute_image_cost lower trim split_x atoi m n ratio size

  -- The cost of images at a price that does not overflow.
  cost-exact :
      (u n : ℕ)
      → resolve_image_unit_price lower trim split_x atoi m size ≡ pos u
      → 1 ≤ n
      → u * n < half_word
      → cost n ≡ scaled (pos (u * n)) (ratio_or_one ratio)
  unfolding compute_image_cost times
  cost-exact u n unit some_n small =
      let counted : (if n == 0 then 1 else n) ≡ n = ground arith in
      rw (unit, counted) (ap (λ x. scaled x (ratio_or_one ratio)) (wrap64-pos (u * n) small))

  pub cost-Converts :
      (u a b : ℕ)
      → resolve_image_unit_price lower trim split_x atoi m size ≡ pos u
      → 1 ≤ a
      → a ≤ b
      → u * b < half_word
      → Converts (u * b) (ratio_or_one ratio)
      → (pos 0 ≤ℤ cost a) × (cost a ≤ℤ cost b)
  cost-Converts u a b unit some_a le small fits =
      let less = mul_mono u a b le in
      rw (cost-exact u a unit some_a (omega (arith, less)), cost-exact u b unit (omega arith) small)
        (scaled-between (u * a) (u * b) (ratio_or_one ratio) less fits)

  pub positive-Converts :
      (u n : ℕ)
      → resolve_image_unit_price lower trim split_x atoi m size ≡ pos u
      → 1 ≤ n
      → u * n < half_word
      → pos 0 <ℤ cost n
      → Converts (u * n) (ratio_or_one ratio)
  positive-Converts u n unit some_n small h =
      Converts-positive (u * n) (ratio_or_one ratio) (rw (← cost-exact u n unit some_n small) h)

  -- Where the unit price is not negative, its product with the greater number fits an int64, and the
  -- cost of the greater number is below 2 ^ 62 before it is cut to an integer: fewer images, of which
  -- there is one at least, cost no more, and their cost is not negative.
  pub compute_image_cost-mono :
      (u a b : ℕ)
      → resolve_image_unit_price lower trim split_x atoi m size ≡ pos u
      → 1 ≤ a
      → a ≤ b
      → u * b < half_word
      → u * b * ratio_or_one ratio + 500000 < million * (half_word / 2)
      → (pos 0 ≤ℤ cost a) × (cost a ≤ℤ cost b)
  compute_image_cost-mono u a b unit some_a le small fits =
      cost-Converts u a b unit some_a le small (Converts-small (u * b) (ratio_or_one ratio) fits)

module _ (m : Model) (ratio : ℤ) (i o : ℕ) (input : m.input_price_per_1m ≡ pos i)
    (output : m.output_price_per_1m ≡ pos o) where
  -- Two sides of a cost of tokens.
  tokens : ℕ → ℕ → ℕ
  tokens prompt completion = i * prompt / million + o * completion / million

  chat-exact :
      (prompt completion : ℕ)
      → i * prompt + o * completion < half_word
      → compute_chat_cost m prompt completion ratio
        ≡ scaled (pos (tokens prompt completion)) (ratio_or_one ratio)
  unfolding compute_chat_cost times cut tokens
  chat-exact prompt completion small =
      rw (input, output)
        (rw (wrap64-pos (i * prompt) (omega arith), wrap64-pos (o * completion) (omega arith))
          (ap (λ x. scaled x (ratio_or_one ratio))
            (sum (i * prompt / million) (o * completion / million) (omega arith))))

  fewer : (prompt a b : ℕ) → o * a ≤ o * b → tokens prompt a ≤ tokens prompt b
  unfolding tokens
  fewer prompt a b h = omega arith

  estimated :
      (prompt max_tokens : ℕ)
      → i * prompt + o * (if max_tokens == 0 then 2048 else max_tokens) < half_word
      → estimate_chat m prompt max_tokens ratio
        ≡ scaled
            (pos (tokens prompt (if max_tokens == 0 then 2048 else max_tokens)))
            (ratio_or_one ratio)
  unfolding estimate_chat
  estimated prompt max_tokens small =
      chat-exact prompt (if max_tokens == 0 then 2048 else max_tokens) small

  -- A reply of at most the tokens that were estimated costs at most the estimate, and no such reply
  -- costs less than nothing, where prices are not negative, the sum of both products fits an int64,
  -- and the estimate is below 2 ^ 62 before it is cut to an integer.
  pub compute_chat_cost-le_estimate :
      (prompt max_tokens completion : ℕ)
      → completion ≤ (if max_tokens == 0 then 2048 else max_tokens)
      → i * prompt + o * (if max_tokens == 0 then 2048 else max_tokens) < half_word
      → (i * prompt / million + o * (if max_tokens == 0 then 2048 else max_tokens) / million)
            * ratio_or_one ratio
          + 500000
        < million * (half_word / 2)
      → (pos 0 ≤ℤ compute_chat_cost m prompt completion ratio)
        × (compute_chat_cost m prompt completion ratio ≤ℤ estimate_chat m prompt max_tokens ratio)
  unfolding tokens
  compute_chat_cost-le_estimate prompt max_tokens completion le small fits =
      let e : ℕ = if max_tokens == 0 then 2048 else max_tokens in
      let more = mul_mono o completion e le in
      rw (chat-exact prompt completion (omega (arith, more)), estimated prompt max_tokens small)
        (scaled-between (tokens prompt completion) (tokens prompt e) (ratio_or_one ratio)
          (fewer prompt completion e more)
          (Converts-small (tokens prompt e) (ratio_or_one ratio) fits))
