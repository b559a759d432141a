-- ===== src/Gateway/Complete.antt =====
-- What internal/gateway/image_channel.go takes from the channels for one request.
use gpt2api.Prelude.{
  ℕ, zero, suc, ◌+◌, ◌-◌, ◌≤◌, ◌<◌, ◌≡◌, refl, ap, false, ◌⊎◌, inl, inr, arith, ltb, ◌==◌,
  if◌then◌else◌, none, some, List, [], ◌∷◌, ◌++◌,
}
use gpt2api.Db.Action.{Error, said, Result, ok, err}
use gpt2api.Channel.Router.{Route}
use gpt2api.Image.Run.{World}
use gpt2api.Image.Kept.{Returns}
use gpt2api.Gateway.{ImageRequest, ImageResult, Deps}
use gpt2api.Gateway.Retry.{
  actual_count, expected_image_count, generate_loop, image_generate_with_retry, Picked, tried,
  pick_image_route,
}
use gpt2api.Gateway.Rounds.{
  Full, Brings, IsOk, IsOk-path, after_call-IsOk, after_call-IsOk_next,
  image_generate_with_retry-Full,
}

module _ {V Adapter : Type 0} (h : Deps V Adapter) where
  module _ (req : ImageRequest) where
    -- The answer of a route that is asked for so many images.
    abbrev pub asked : Route Adapter → ℕ → World V → Result ImageResult × World V
    asked rt n w =
        h.image_generate rt.adapter rt.candidate.mapping.upstream_model (record req { n = n }) w

    -- Every answer of the route has an image.
    abbrev pub Productive : Route Adapter → Type 0
    Productive rt = (n : ℕ) (w : World V) → 1 ≤ n → Brings h 1 (asked rt n w)

    generate_loop-IsOk :
        (calls : ℕ) (rt : Route Adapter) (expected : ℕ) (combined : ImageResult) (last : Error)
        (w : World V)
        → Productive rt
        → actual_count combined < expected
        → expected ≤ actual_count combined + calls
        → IsOk h (generate_loop h calls rt req expected combined last w)
    unfolding generate_loop
    generate_loop-IsOk zero rt expected combined last w p less enough = absurd (omega arith)
    generate_loop-IsOk (suc calls) rt expected combined last w p less enough =
        let missing : (expected - actual_count combined == 0) ≡ false = ground arith in
        rw missing (
          after_call-IsOk_next h expected combined
            (λ c x v. generate_loop h calls rt req expected c x v)
            (asked rt (expected - actual_count combined) w) less
            (p (expected - actual_count combined) w (omega arith))
            λ c e v grown few. generate_loop-IsOk calls rt expected c e v p few (omega arith))

    Productive-IsOk :
        (rt : Route Adapter) (w : World V)
        → Productive rt
        → IsOk h (image_generate_with_retry h rt req w)
    unfolding image_generate_with_retry actual_count
    Productive-IsOk rt w p =
        generate_loop-IsOk
          (if ltb (expected_image_count req) 2 then 2 else expected_image_count req) rt
          (expected_image_count req) (record { urls = []; b64s = [] }) (said "") w p (ground arith)
          (ground arith)

    Brings-IsOk :
        (calls : ℕ) (rt : Route Adapter) (expected : ℕ) (combined : ImageResult) (w : World V)
        → 1 ≤ calls
        → actual_count combined < expected
        → Brings h
            (expected - actual_count combined)
            (asked rt (expected - actual_count combined) w)
        → IsOk h (generate_loop h calls rt req expected combined (said "") w)
    unfolding generate_loop
    Brings-IsOk zero rt expected combined w called less brings = absurd (omega arith)
    Brings-IsOk (suc calls) rt expected combined w called less brings =
        let missing : (expected - actual_count combined == 0) ≡ false = ground arith in
        rw missing (
          after_call-IsOk h expected combined (λ c x v. generate_loop h calls rt req expected c x v)
            (asked rt (expected - actual_count combined) w) less brings)

    full-IsOk :
        (rt : Route Adapter) (w : World V)
        → Brings h (expected_image_count req) (asked rt (expected_image_count req) w)
        → IsOk h (image_generate_with_retry h rt req w)
    unfolding image_generate_with_retry actual_count
    full-IsOk rt w brings =
        let all : expected_image_count req - 0 ≡ expected_image_count req = omega arith in
        Brings-IsOk (if ltb (expected_image_count req) 2 then 2 else expected_image_count req) rt
          (expected_image_count req) (record { urls = []; b64s = [] }) w (ground arith)
          (ground arith) (rw all brings)

    -- When the first of the routes was asked for all the images, at the given state of the world, it
    -- did not bring them, and not every answer of it has an image; so for the others, each at the
    -- state of the world that the calls of the one before it leave.
    abbrev pub Fails : World V → List (Route Adapter × Error) → Type 0
    Fails w [] = Unit {0}
    Fails w ((rt, e) ∷ fs) =
        (¬ Productive rt)
        × (¬ Brings h (expected_image_count req) (asked rt (expected_image_count req) w))
        × Fails (image_generate_with_retry h rt req w).1 fs

  -- The routes that failed.
  unfoldable pub failed_routes : List (Route Adapter × Error) → List (Route Adapter)
  failed_routes [] = []
  failed_routes ((rt, e) ∷ fs) = rt ∷ failed_routes fs

  module _ (req : ImageRequest) where
    -- The routes before the picked one have failed, and the picked one gave every image; or all
    -- failed.
    abbrev pub PicksFirst : World V → List (Route Adapter) → Picked h × World V → Type 0
    PicksFirst start routes ((none, failures), w) =
        (failed_routes failures ≡ routes) × Fails req start failures
    PicksFirst start routes ((some (rt, x), failures), w) =
        Full (expected_image_count req) x
        × Fails req start failures
        × ((rest : List (Route Adapter)) × (failed_routes failures ++ rt ∷ rest ≡ routes))

    -- The first call of the route failed it, and the calls end in `v`.
    abbrev FailsTo : Route Adapter → World V → World V → Type 0
    FailsTo rt w v =
        (¬ Productive req rt)
        × (¬ Brings h (expected_image_count req) (asked req rt (expected_image_count req) w))
        × ((image_generate_with_retry h rt req w).1 ≡ v)

    picks_next :
        (rt : Route Adapter) (rts : List (Route Adapter)) (e : Error) (w v : World V)
        (p : Picked h × World V)
        → FailsTo rt w v
        → PicksFirst v rts p
        → PicksFirst w (rt ∷ rts) ((p.0.0, (rt, e) ∷ p.0.1), p.1)
    unfolding failed_routes
    picks_next rt rts e w v ((none, failures), u) (idle, short, to) q =
        (ap (λ l. rt ∷ l) q.0, (idle, short, rw to q.1))
    picks_next rt rts e w v ((some (r, x), failures), u) (idle, short, to)
          (full, fails, (rest, q)) =
        (full, (idle, short, rw to fails), (rest, ap (λ l. rt ∷ l) q))

    tried-PicksFirst :
        (rt : Route Adapter) (rts : List (Route Adapter)) (w : World V)
        (r : Result ImageResult × World V) (next : World V → Picked h × World V)
        → Returns (Full (expected_image_count req)) r
        → (IsOk h r ⊎ FailsTo rt w r.1)
        → ((v : World V) → PicksFirst v rts (next v))
        → PicksFirst w (rt ∷ rts) (tried h rt r next)
    unfolding failed_routes
    tried-PicksFirst rt rts w (ok x, v) next full fails later = (full, tt, (rts, refl))
    tried-PicksFirst rt rts w (err e, v) next full (inl k) later = absurd k
    tried-PicksFirst rt rts w (err e, v) next full (inr fails) later =
        picks_next rt rts e w v (next v) fails (later v)

    ends :
        (rt : Route Adapter) (w : World V) (r : Result ImageResult × World V)
        → image_generate_with_retry h rt req w ≡ r
        → IsOk h r ⊎ FailsTo rt w r.1
    ends rt w (ok x, v) same = inl tt
    ends rt w (err e, v) same = inr (
      λ p. IsOk-path h _ _ same (Productive-IsOk req rt w p),
      λ b. IsOk-path h _ _ same (full-IsOk req rt w b),
      ap (λ r. r.1) same,
    )

    -- The first route that gives exactly the images asked for is picked; those before it in the
    -- order of the routes are the failures. Where none is picked, the failures are all the routes. A
    -- route is a failure only if its answer to the first call, a request for all the images at the
    -- state of the world that the routes before it leave, is an error or has fewer, and only if it
    -- can answer a request with an error or without an image.
    pub pick_image_route-PicksFirst :
        (routes : List (Route Adapter)) (w : World V)
        → PicksFirst w routes (pick_image_route h routes req w)
    unfolding pick_image_route failed_routes
    pick_image_route-PicksFirst [] w = (refl, tt)
    pick_image_route-PicksFirst (rt ∷ rts) w =
        tried-PicksFirst rt rts w (image_generate_with_retry h rt req w)
          (λ v. pick_image_route h rts req v) (image_generate_with_retry-Full h rt req w)
          (ends rt w (image_generate_with_retry h rt req w) refl)
          (λ v. pick_image_route-PicksFirst rts v)
