-- ===== src/Gateway/Rounds.antt =====
-- One round of `imageGenerateWithRetry` of internal/gateway/image_channel.go, and the images that
-- its rounds have at the end.
use gpt2api.Prelude.{
  ℕ, zero, suc, ◌+◌, ◌-◌, ◌≤◌, ◌<◌, ◌≡◌, true, inl, inr, arith, ltb, leb, ◌==◌, Bool-cases,
  if◌then◌else◌, [], length, length-take, length-append,
}
use gpt2api.Db.Action.{Error, said, Result, ok, err}
use gpt2api.Channel.Router.{Route}
use gpt2api.Image.Run.{World}
use gpt2api.Image.Kept.{Returns}
use gpt2api.Gateway.{ImageRequest, ImageResult, Deps}
use gpt2api.Gateway.Retry.{
  actual_count, expected_image_count, trim_adapter_image_result, append_adapter_image_result,
  after_call, generate_loop, image_generate_with_retry,
}

trim-full :
    (x : ImageResult) (m : ℕ)
    → 1 ≤ m
    → m ≤ actual_count x
    → actual_count (trim_adapter_image_result x m) ≡ m
unfolding actual_count trim_adapter_image_result
trim-full x m positive enough = elim (Bool-cases (leb m (length x.urls))) [
  | inl e ↦ ground (arith, length-take m x.urls)
  | inr e ↦ ground (arith, length-take (m - length x.urls) x.b64s)
]

trim-short :
    (x : ImageResult) (m : ℕ)
    → actual_count x < m
    → actual_count (trim_adapter_image_result x m) ≡ actual_count x
unfolding actual_count trim_adapter_image_result
trim-short x m short = ground arith

trim-le : (x : ImageResult) (m : ℕ) → 1 ≤ m → actual_count (trim_adapter_image_result x m) ≤ m
trim-le x m positive = elim (Bool-cases (leb m (actual_count x))) [
  | inl e ↦ omega (arith, trim-full x m positive (ground arith))
  | inr e ↦ let less : actual_count x < m = ground arith in omega (arith, trim-short x m less)
]

append_count :
    (x y : ImageResult)
    → actual_count (append_adapter_image_result x y) ≡ actual_count x + actual_count y
unfolding actual_count
append_count x y = omega (arith, length-append x.urls y.urls, length-append x.b64s y.b64s)

abbrev pub Full : ℕ → ImageResult → Type 0
Full n x = actual_count x ≡ n

module _ {V Adapter : Type 0} (h : Deps V Adapter) where
  after_call-Full :
      (expected : ℕ) (combined : ImageResult)
      (again : ImageResult → Error → World V → Result ImageResult × World V)
      (r : Result ImageResult × World V)
      → actual_count combined < expected
      → ((c : ImageResult) (e : Error) (w : World V)
          → actual_count c ≤ expected
          → Returns (Full expected) (again c e w))
      → Returns (Full expected) (after_call h expected combined again r)
  unfolding after_call
  after_call-Full expected combined again (err e, w) less next =
      elim (Bool-cases (h.references_unsupported e)) [
        | inl u ↦ rw u tt
        | inr u ↦ rw u (next combined e w (omega arith))
      ]
  after_call-Full expected combined again (ok x, w) less next =
      let part = trim_adapter_image_result x (expected - actual_count combined) in
      let more = append_adapter_image_result combined part in
      let few : actual_count more ≤ expected = omega (
        arith,
        append_count combined part,
        trim-le x (expected - actual_count combined) (omega arith),
      ) in
      elim (Bool-cases (ltb 0 (actual_count x))) [
        | inr u ↦ rw u (next combined (said "empty image response") w (omega arith))
        | inl u ↦ elim (Bool-cases (leb expected (actual_count more))) [
          | inl v ↦ rw (u, v) (trim-full more expected (omega arith) (ground arith))
          | inr v ↦ rw (u, v) (next more (said "image response count mismatch") w few)
        ]
      ]

  generate_loop-Full :
      (calls : ℕ) (rt : Route Adapter) (req : ImageRequest) (expected : ℕ) (combined : ImageResult)
      (last : Error) (w : World V)
      → 1 ≤ expected
      → actual_count combined ≤ expected
      → Returns (Full expected) (generate_loop h calls rt req expected combined last w)
  unfolding generate_loop
  generate_loop-Full zero rt req expected combined last w positive few = tt
  generate_loop-Full (suc calls) rt req expected combined last w positive few =
      let remaining = expected - actual_count combined in
      elim (Bool-cases (remaining == 0)) [
        | inl e ↦ rw e (trim-full combined expected positive (ground arith))
        | inr e ↦ rw e (
            after_call-Full expected combined (λ c x v. generate_loop h calls rt req expected c x v)
              (h.image_generate rt.adapter rt.candidate.mapping.upstream_model
                (record req { n = remaining }) w)
              (ground arith)
              (λ c x v le. generate_loop-Full calls rt req expected c x v positive le))
      ]

  -- A route that succeeds has given exactly the images that were asked for, at least one.
  pub image_generate_with_retry-Full :
      (rt : Route Adapter) (req : ImageRequest) (w : World V)
      → Returns (Full (expected_image_count req)) (image_generate_with_retry h rt req w)
  unfolding image_generate_with_retry actual_count
  image_generate_with_retry-Full rt req w =
      generate_loop-Full (if ltb (expected_image_count req) 2 then 2 else expected_image_count req)
        rt req (expected_image_count req) (record { urls = []; b64s = [] }) (said "") w
        (ground arith) (omega arith)

  -- An answer with so many images at least.
  abbrev pub Brings : ℕ → Result ImageResult × World V → Type 0
  Brings n (ok x, w) = n ≤ actual_count x
  Brings n (err e, w) = ⊥

  abbrev pub IsOk : Result ImageResult × World V → Type 0
  IsOk (ok x, w) = Unit {0}
  IsOk (err e, w) = ⊥

  pub IsOk-path : (r s : Result ImageResult × World V) → r ≡ s → IsOk r → IsOk s
  IsOk-path r s same k = rw (← same) k

  pub after_call-IsOk :
      (expected : ℕ) (combined : ImageResult)
      (again : ImageResult → Error → World V → Result ImageResult × World V)
      (r : Result ImageResult × World V)
      → actual_count combined < expected
      → Brings (expected - actual_count combined) r
      → IsOk (after_call h expected combined again r)
  unfolding after_call
  after_call-IsOk expected combined again (err e, w) less brings = absurd brings
  after_call-IsOk expected combined again (ok x, w) less brings =
      let part = trim_adapter_image_result x (expected - actual_count combined) in
      let some_x : ltb 0 (actual_count x) ≡ true = ground arith in
      let full : leb expected (actual_count (append_adapter_image_result combined part)) ≡ true =
        ground (
          arith,
          append_count combined part,
          trim-full x (expected - actual_count combined) (omega arith) brings,
        ) in
      rw (some_x, full) tt

  trim-positive :
      (x : ImageResult) (m : ℕ)
      → 1 ≤ m
      → 1 ≤ actual_count x
      → 1 ≤ actual_count (trim_adapter_image_result x m)
  trim-positive x m positive some_x = elim (Bool-cases (leb m (actual_count x))) [
    | inl e ↦ omega (arith, trim-full x m positive (ground arith))
    | inr e ↦ let less : actual_count x < m = ground arith in omega (arith, trim-short x m less)
  ]

  -- One image is enough for progress, where the next round succeeds with what is there then.
  pub after_call-IsOk_next :
      (expected : ℕ) (combined : ImageResult)
      (again : ImageResult → Error → World V → Result ImageResult × World V)
      (r : Result ImageResult × World V)
      → actual_count combined < expected
      → Brings 1 r
      → ((c : ImageResult) (e : Error) (w : World V)
          → actual_count combined < actual_count c
          → actual_count c < expected
          → IsOk (again c e w))
      → IsOk (after_call h expected combined again r)
  unfolding after_call
  after_call-IsOk_next expected combined again (err e, w) less brings next = absurd brings
  after_call-IsOk_next expected combined again (ok x, w) less brings next =
      let part = trim_adapter_image_result x (expected - actual_count combined) in
      let more = append_adapter_image_result combined part in
      let some_x : ltb 0 (actual_count x) ≡ true = ground arith in
      let grown : actual_count combined < actual_count more = omega (
        arith,
        append_count combined part,
        trim-positive x (expected - actual_count combined) (omega arith) brings,
      ) in
      elim (Bool-cases (leb expected (actual_count more))) [
        | inl v ↦ rw (some_x, v) tt
        | inr v ↦
            rw (some_x, v) (next more (said "image response count mismatch") w grown (ground arith))
      ]
