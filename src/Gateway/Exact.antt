-- ===== src/Gateway/Exact.antt =====
-- What a request for images in internal/gateway takes where the driver does not fail.
use gpt2api.Prelude.{ℕ, ◌+◌, ◌≡◌, arith, Bool, true, false, some}
use gpt2api.Prelude.Int.{ℤ, pos, ◌+ℤ◌, ◌-ℤ◌, ◌≤ℤ◌, ◌<ℤ◌, ltb_ℤ, InInt64, int_laws}
use gpt2api.Db.Table.{find}
use gpt2api.Db.Rows.{Database, User}
use gpt2api.Billing.Posting.{touch}
use gpt2api.Billing.Account.{account, ledger}
use gpt2api.Billing.Calm.{calm, settle-Holds, refund_credits-Holds}
use gpt2api.Billing.Lifecycle.{
  reserved, after_reserve, reserve_runs, ledger-after_reserve, found-after_reserve,
}
use gpt2api.Gateway.{Site, Usage, Reply, refused, served, Verdict, lost, won, ImageData}
use gpt2api.Gateway.Charge.{Bill, Answer, reserve, give_back, settle_usage, finish, charge, is_zero}
use gpt2api.Gateway.Charged.{CostsWithin, not_zero}

-- The account and the ledger sum of a live user.
abbrev pub Stands : ℕ → ℤ → ℤ → ℤ → Database → Type 0
Stands k available frozen logged d =
    (account k d ≡ some (record { available = available; frozen = frozen; is_deleted = false }))
    × (ledger k d ≡ logged)

-- Exactly what a request has taken from the user `u`: nothing, or the cost in its log.
abbrev pub TakesExactly : {V : Type 0} → Bill → User → Database → Answer V → Type 0
TakesExactly b u d ((refused status code, rec), w) =
    Stands b.user_id u.credit_balance u.credit_frozen (ledger b.user_id d) w.session.db
TakesExactly b u d ((served id images, rec), w) =
    Stands b.user_id (u.credit_balance -ℤ rec.credit_cost) u.credit_frozen
      (ledger b.user_id d -ℤ rec.credit_cost) w.session.db

module _ (V : Type 0) (b : Bill) (d : Database) (n : ℕ) (u : User)
    (found : find b.user_id d.users ≡ some u) (live : u.deleted ≡ false)
    (positive : pos 0 <ℤ b.cost) (range : InInt64 b.cost) (covered : b.cost ≤ℤ u.credit_balance)
    (held : pos 0 ≤ℤ u.credit_frozen) (rb : InInt64 u.credit_balance)
    (rf : InInt64 (u.credit_frozen +ℤ b.cost)) where
  abbrev prepaid : Database
  prepaid =
      after_reserve b.user_id b.key_id b.cost b.ref_id "image prepay" d n u found live positive
        range

  abbrev later : ℕ
  later = n + 1 + 1 + 1 + 1 + 1

  abbrev holder : User
  holder =
      reserved b.user_id b.key_id b.cost b.ref_id "image prepay" d n u found live positive range

  at_holder : find b.user_id prepaid.users ≡ some holder
  at_holder =
      found-after_reserve b.user_id b.key_id b.cost b.ref_id "image prepay" d n u found live
        positive range

  logged_holder : ledger b.user_id prepaid ≡ ledger b.user_id d +ℤ (pos 0 -ℤ b.cost)
  logged_holder =
      ledger-after_reserve b.user_id b.key_id b.cost b.ref_id "image prepay" d n u found live
        positive range

  released-Stands :
      (w : Site V)
      → w.session ≡ calm prepaid later
      → Stands b.user_id u.credit_balance u.credit_frozen
          (ledger b.user_id d)
          (give_back b w).session.db
  unfolding give_back touch
  released-Stands w same =
      let h =
        refund_credits-Holds b.user_id b.key_id b.cost b.ref_id "image refund" prepaid later holder
          at_holder live positive range (omega int_laws) rf
          (record { above = omega int_laws; below = omega int_laws }) in
      let paid : holder.credit_balance +ℤ b.cost ≡ u.credit_balance = omega int_laws in
      let free : holder.credit_frozen +ℤ (pos 0 -ℤ b.cost) ≡ u.credit_frozen = omega int_laws in
      let shown : ledger b.user_id prepaid +ℤ b.cost ≡ ledger b.user_id d =
        rw logged_holder (omega int_laws) in
      let (done, account_now, ledger_now) = rw (paid, free, shown) at h in
      rw (not_zero b.cost positive, same) (account_now, ledger_now)

  settled-Stands :
      (actual : ℤ) (w : Site V)
      → pos 0 ≤ℤ actual
      → actual ≤ℤ b.cost
      → w.session ≡ calm prepaid later
      → Stands b.user_id
          (u.credit_balance -ℤ actual)
          u.credit_frozen
          (ledger b.user_id d -ℤ actual)
          (settle_usage true b actual w).session.db
  unfolding settle_usage touch
  settled-Stands actual w ha within same =
      let h =
        settle-Holds b.user_id b.key_id b.cost b.ref_id "image settle" prepaid later holder
          at_holder live positive range actual ha
          (record { above = omega int_laws; below = omega int_laws }) (omega int_laws) rf
          (record { above = omega int_laws; below = omega int_laws }) in
      let paid : holder.credit_balance +ℤ (b.cost -ℤ actual) ≡ u.credit_balance -ℤ actual =
        omega int_laws in
      let free : holder.credit_frozen +ℤ (pos 0 -ℤ b.cost) ≡ u.credit_frozen = omega int_laws in
      let shown : ledger b.user_id prepaid +ℤ (b.cost -ℤ actual) ≡ ledger b.user_id d -ℤ actual =
        rw logged_holder (omega int_laws) in
      let (done, account_now, ledger_now) = rw (paid, free, shown) at h in
      rw same (account_now, ledger_now)

  finish-TakesExactly :
      (wanted : ℤ → Bool) (rec : Usage) (r : Verdict × Site V)
      → ((a : ℤ) → wanted a ≡ true)
      → CostsWithin b r
      → r.1.session ≡ calm prepaid later
      → TakesExactly b u d (finish wanted b rec r)
  unfolding finish
  finish-TakesExactly wanted rec (lost acc status code shown, w) always within same =
      released-Stands w same
  finish-TakesExactly wanted rec (won acc images k actual, w) always within same =
      rw (always actual) (settled-Stands actual w within.0 within.1 same)

  -- Where nothing fails in the driver and a live user's balance covers the reservation, a positive int64
  -- amount, an attempt that touches no credits and costs at most the reservation, and is settled
  -- whatever it costs: the request takes nothing if it is refused and exactly the cost in its log if it
  -- is served; nothing of it stays frozen. The user's amounts and the frozen sum fit an int64, and what
  -- was frozen before is not negative.
  pub charge-TakesExactly :
      (wanted : ℤ → Bool) (rec : Usage) (attempt : Site V → Verdict × Site V) (w : Site V)
      → ((a : ℤ) → wanted a ≡ true)
      → ((v : Site V) → (attempt v).1.session ≡ v.session)
      → ((v : Site V) → CostsWithin b (attempt v))
      → TakesExactly b u d (charge wanted b rec attempt (record w { session = calm d n }))
  unfolding charge reserve gpt2api.Gateway.Charge.after_reserve
  charge-TakesExactly wanted rec attempt w always apart within =
      let started : ltb_ℤ (pos 0) b.cost ≡ true = ground arith in
      let runs =
        reserve_runs b.user_id b.key_id b.cost b.ref_id "image prepay" d n u found live positive
          range covered held rb rf in
      let v : Site V = record w { session = calm prepaid later } in
      rw (started, runs) (finish-TakesExactly wanted rec (attempt v) always (within v) (apart v))
