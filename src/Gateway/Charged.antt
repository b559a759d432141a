-- ===== src/Gateway/Charged.antt =====
-- What the requests of internal/gateway/images.go and image_channel.go take from an account.
use gpt2api.Prelude.{◌≡◌, refl, ◌∙◌, ◌⊎◌, inl, inr, arith, Bool, true, false}
use gpt2api.Prelude.Int.{ℤ, pos, ◌+ℤ◌, ◌-ℤ◌, ◌≤ℤ◌, ◌<ℤ◌, ltb_ℤ, InInt64, int_laws}
use gpt2api.Db.Rows.{Database}
use gpt2api.Db.Action.{Result, ok, err, Session}
use gpt2api.Billing.{pre_deduct, settle, refund_credits}
use gpt2api.Billing.Effects.{pre_deduct-Moves, refund_credits-Moves, settle-Moves}
use gpt2api.Gateway.{Site, Usage, refused, served, Verdict, lost, won}
use gpt2api.Gateway.Charge.{
  Bill, Answer, reserve, give_back, settle_usage, finish, after_reserve, charge, is_zero,
}
use gpt2api.Gateway.Shift.{Shift, Shifts, Shift-same, Shift-trans, Moves-Shifts, Shifts-either}

-- The reservation of `b` has not been given back.
abbrev pub StaysHeld : Bill → Database → Database → Type 0
StaysHeld b d d' = Shift b.user_id (pos 0 -ℤ b.cost) b.cost d d'

-- What an answer has taken: nothing where it is refused, the cost of the log where it is served.
abbrev pub IsCharged : {V : Type 0} → Bill → Database → Answer V → Type 0
IsCharged b d ((refused status code, rec), w) =
    Shift b.user_id (pos 0) (pos 0) d w.session.db ⊎ StaysHeld b d w.session.db
IsCharged b d ((served id images, rec), w) =
    Shift b.user_id (pos 0 -ℤ rec.credit_cost) (pos 0) d w.session.db ⊎ StaysHeld b d w.session.db

-- The actual cost that an attempt asks for.
abbrev pub CostsFairly : {V : Type 0} → Verdict × Site V → Type 0
CostsFairly (lost account status code shown, w) = Unit {0}
CostsFairly (won account images n actual, w) = (pos 0 ≤ℤ actual) × InInt64 actual

pub not_zero : (c : ℤ) → pos 0 <ℤ c → is_zero c ≡ false
not_zero c h = ground arith

module _ (b : Bill) (d : Database) where
  -- A call after the reservation moves what is held, or fails.
  after_held :
      (a f a' f' : ℤ) (c e : Database)
      → (pos 0 -ℤ b.cost) +ℤ a ≡ a'
      → b.cost +ℤ f ≡ f'
      → StaysHeld b d c
      → Shift b.user_id a f c e ⊎ (e ≡ c)
      → Shift b.user_id a' f' d e ⊎ StaysHeld b d e
  after_held a f a' f' c e x y held (inl moved) =
      inl (rw (← x, ← y) (Shift-trans b.user_id (pos 0 -ℤ b.cost) b.cost a f d c e held moved))
  after_held a f a' f' c e x y held (inr same) = inr (rw same held)

module _ {V : Type 0} (b : Bill) (d : Database) (positive : pos 0 <ℤ b.cost)
    (range : InInt64 b.cost) where
  released :
      (w : Site V)
      → StaysHeld b d w.session.db
      → Shift b.user_id (pos 0) (pos 0) d (give_back b w).session.db
        ⊎ StaysHeld b d (give_back b w).session.db
  unfolding give_back
  released w held =
      let s : Session = w.session in
      rw (not_zero b.cost positive) (
        after_held b d b.cost (pos 0 -ℤ b.cost) (pos 0) (pos 0) s.db
          (refund_credits b.user_id b.key_id b.cost b.ref_id "image refund" s).1.db (omega int_laws)
          (omega int_laws) held
          (Shifts-either b.user_id b.cost (pos 0 -ℤ b.cost) s
            (refund_credits b.user_id b.key_id b.cost b.ref_id "image refund" s)
            (Moves-Shifts b.user_id _ b.cost (pos 0 -ℤ b.cost) s
              (refund_credits b.user_id b.key_id b.cost b.ref_id "image refund" s)
              (refund_credits-Moves b.user_id b.key_id b.ref_id "image refund" s b.cost positive))))

  settled :
      (wanted : Bool) (actual : ℤ) (w : Site V)
      → (pos 0 ≤ℤ actual) × InInt64 actual
      → StaysHeld b d w.session.db
      → Shift b.user_id (pos 0 -ℤ actual) (pos 0) d (settle_usage wanted b actual w).session.db
        ⊎ StaysHeld b d (settle_usage wanted b actual w).session.db
  unfolding settle_usage
  settled false actual w fair held = inr held
  settled true actual w fair held =
      let s : Session = w.session in
      let r = settle b.user_id b.key_id b.cost actual b.ref_id "image settle" s in
      after_held b d (b.cost -ℤ actual) (pos 0 -ℤ b.cost) (pos 0 -ℤ actual) (pos 0) s.db r.1.db
        (omega int_laws) (omega int_laws) held
        (Shifts-either b.user_id (b.cost -ℤ actual) (pos 0 -ℤ b.cost) s r (
          Moves-Shifts b.user_id _ (b.cost -ℤ actual) (pos 0 -ℤ b.cost) s r (
            settle-Moves b.user_id b.key_id b.ref_id "image settle" s b.cost actual (omega int_laws)
              range fair.0 fair.1 (omega int_laws))))

  finish-IsCharged :
      (wanted : ℤ → Bool) (rec : Usage) (r : Verdict × Site V)
      → CostsFairly r
      → StaysHeld b d r.1.session.db
      → IsCharged b d (finish wanted b rec r)
  unfolding finish
  finish-IsCharged wanted rec (lost account status code shown, w) fair held = released w held
  finish-IsCharged wanted rec (won account images n actual, w) fair held =
      settled (wanted actual) actual w fair held

  after_reserve-IsCharged :
      (wanted : ℤ → Bool) (rec : Usage) (attempt : Site V → Verdict × Site V) (s : Session)
      (w : Site V) (r : Result (Unit {0}) × Session)
      → ((v : Site V) → (attempt v).1.session ≡ v.session)
      → ((v : Site V) → CostsFairly (attempt v))
      → s.db ≡ d
      → Shifts b.user_id (pos 0 -ℤ b.cost) b.cost s r
      → IsCharged b d (after_reserve wanted b rec attempt (r.0, record w { session = r.1 }))
  unfolding after_reserve
  after_reserve-IsCharged wanted rec attempt s w (err e, t) apart fair same h =
      inl (Shift-same b.user_id d t.db (h ∙ same))
  after_reserve-IsCharged wanted rec attempt s w (ok x, t) apart fair same h =
      let v : Site V = record w { session = t } in
      finish-IsCharged wanted rec (attempt v) (fair v) (rw (apart v, ← same) h)

  -- Where a positive cost is reserved that fits an int64, an attempt touches no credits, and no actual
  -- cost is negative or beyond an int64: a request that is refused has taken nothing, and one that is
  -- served has taken exactly the cost in its log. The only other end is that the whole reservation is
  -- still held. Nobody else's account or ledger changes.
  pub charge-IsCharged :
      (wanted : ℤ → Bool) (rec : Usage) (attempt : Site V → Verdict × Site V) (w : Site V)
      → ((v : Site V) → (attempt v).1.session ≡ v.session)
      → ((v : Site V) → CostsFairly (attempt v))
      → w.session.db ≡ d
      → IsCharged b d (charge wanted b rec attempt w)
  unfolding charge reserve
  charge-IsCharged wanted rec attempt w apart fair same =
      let s : Session = w.session in
      let started : ltb_ℤ (pos 0) b.cost ≡ true = ground arith in
      let r = pre_deduct b.user_id b.key_id b.cost b.ref_id "image prepay" s in
      rw started (
        after_reserve-IsCharged wanted rec attempt s w r apart fair same (
          Moves-Shifts b.user_id _ (pos 0 -ℤ b.cost) b.cost s r
            (pre_deduct-Moves b.user_id b.key_id b.ref_id "image prepay" s b.cost positive range)))

-- A served request costs at most what was reserved.
abbrev pub IsCovered : {V : Type 0} → Bill → Answer V → Type 0
IsCovered b ((refused status code, rec), w) = Unit {0}
IsCovered b ((served id images, rec), w) = (pos 0 ≤ℤ rec.credit_cost) × (rec.credit_cost ≤ℤ b.cost)

abbrev pub CostsWithin : {V : Type 0} → Bill → Verdict × Site V → Type 0
CostsWithin b (lost account status code shown, w) = Unit {0}
CostsWithin b (won account images n actual, w) = (pos 0 ≤ℤ actual) × (actual ≤ℤ b.cost)

module _ {V : Type 0} (b : Bill) (wanted : ℤ → Bool) (rec : Usage) where
  finish-IsCovered : (r : Verdict × Site V) → CostsWithin b r → IsCovered b (finish wanted b rec r)
  unfolding finish
  finish-IsCovered (lost account status code shown, w) h = tt
  finish-IsCovered (won account images n actual, w) h = h

  after_reserve-IsCovered :
      (attempt : Site V → Verdict × Site V) (r : Result (Unit {0}) × Site V)
      → ((v : Site V) → CostsWithin b (attempt v))
      → IsCovered b (after_reserve wanted b rec attempt r)
  unfolding after_reserve
  after_reserve-IsCovered attempt (err e, w) h = tt
  after_reserve-IsCovered attempt (ok x, w) h = finish-IsCovered (attempt w) (h w)

  pub charge-IsCovered :
      (attempt : Site V → Verdict × Site V) (w : Site V)
      → ((v : Site V) → CostsWithin b (attempt v))
      → IsCovered b (charge wanted b rec attempt w)
  unfolding charge
  charge-IsCovered attempt w h = after_reserve-IsCovered attempt (reserve b w) h

CostsWithin-CostsFairly :
    {V : Type 0} (b : Bill) (r : Verdict × Site V)
    → InInt64 b.cost
    → CostsWithin b r
    → CostsFairly r
CostsWithin-CostsFairly b (lost account status code shown, w) range h = tt
CostsWithin-CostsFairly b (won account images n actual, w) range h =
    (h.0, record { above = omega int_laws; below = omega int_laws })

-- Both at once, where every attempt costs at most the reservation.
pub charge-within :
    {V : Type 0} (b : Bill) (wanted : ℤ → Bool) (rec : Usage) (attempt : Site V → Verdict × Site V)
    (w : Site V)
    → pos 0 <ℤ b.cost
    → InInt64 b.cost
    → ((v : Site V) → (attempt v).1.session ≡ v.session)
    → ((v : Site V) → CostsWithin b (attempt v))
    → IsCharged b w.session.db (charge wanted b rec attempt w)
      × IsCovered b (charge wanted b rec attempt w)
charge-within b wanted rec attempt w positive range apart within = (
  charge-IsCharged b w.session.db positive range wanted rec attempt w apart
      (λ v. CostsWithin-CostsFairly b (attempt v) range (within v)) refl,
  charge-IsCovered b wanted rec attempt w within,
)
