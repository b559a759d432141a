-- ===== src/Billing.antt =====
-- internal/billing/engine.go: the credit engine. An amount is an `int64` in thousandths of a
-- credit; arithmetic in Go wraps at 64 bits, and a BIGINT column refuses a value out of range.

pub mod Posting
pub mod Calls
pub mod Account
pub mod Effects
pub mod Credit
pub mod Logged
pub mod History
pub mod Calm
pub mod Lifecycle
mod Tests
use gpt2api.Prelude.{
  ℕ, ◌+◌, String, Bool, true, false, ◌&&◌, not, Option, none, some, List, [], ◌∷◌, ◌==◌,
  if◌then◌else◌,
}
use gpt2api.Prelude.Int.{ℤ, pos, ◌+ℤ◌, ◌-ℤ◌, leb_ℤ, ltb_ℤ, fits_int64, wrap64}
use gpt2api.Db.Table.{find, replace}
use gpt2api.Db.Rows.{
  Database, User, Transaction, Kind, freeze, unfreeze, consume, refund, recharge, redeem, checkin,
}
use gpt2api.Db.Action.{
  Error, insufficient, conflict, amount_not_positive, user_not_found, out_of_range, no_rows, Result,
  ok, err, Action, pure, raise, raise_if, ◌>>=◌, ◌>>◌, statement, run_tx,
}

-- Go's `-a` on an `int64`.
pub neg64 : ℤ → ℤ
neg64 a = wrap64 (pos 0 -ℤ a)

-- `UPDATE users SET credit_balance = credit_balance + ?, credit_frozen = credit_frozen + ?,
-- version = version + 1 WHERE id = ? AND guard`: the rows affected. `guard` is `none` where the
-- server cannot evaluate it. The key is the primary key, so one row matches at most.
unfoldable pub update_users : ℕ → (User → Option Bool) → ℤ → ℤ → Action ℕ
update_users user_id guard available frozen = statement λ d. elim (find user_id d.users) [
  | none ↦ ok (0, d)
  | some u ↦ elim (guard u) [
    | none ↦ err out_of_range
    | some false ↦ ok (0, d)
    | some true ↦
        let balance = u.credit_balance +ℤ available in
        let held = u.credit_frozen +ℤ frozen in
        if fits_int64 balance && fits_int64 held
        then ok (
          1,
          record d {
            users =
                replace user_id
                  (record u {
                    credit_balance = balance;
                    credit_frozen = held;
                    version = u.version + 1;
                  })
                  d.users;
          },
        )
        else err out_of_range
  ]
]

-- `SELECT credit_balance FROM users WHERE id = ?`
unfoldable pub select_balance : ℕ → Action ℤ
select_balance user_id =
    statement
      λ d. elim (find user_id d.users) [ none ↦ err no_rows | some u ↦ ok (u.credit_balance, d) ]

abbrev pub entry : ℕ → ℕ → Kind → ℤ → ℤ → String → String → Transaction
entry user_id key_id kind amount balance_after ref_id remark = record {
  user_id = user_id;
  key_id = key_id;
  kind = kind;
  amount = amount;
  balance_after = balance_after;
  ref_id = ref_id;
  remark = remark;
}

-- `INSERT INTO credit_transactions (user_id, key_id, type, amount, balance_after, ref_id, remark)`
unfoldable pub insert_transaction : ℕ → ℕ → Kind → ℤ → ℤ → String → String → Action (Unit {0})
insert_transaction user_id key_id kind amount balance_after ref_id remark = statement λ d.
    let row = entry user_id key_id kind amount balance_after ref_id remark in
    ok (tt, record d { transactions = row ∷ d.transactions })

-- `deleted_at IS NULL`
unfoldable pub is_live : User → Bool
is_live u = not u.deleted

-- `Engine.Balance`
pub balance : ℕ → Action (ℤ × ℤ)
unfolding is_live
balance user_id = statement λ d. elim (find user_id d.users) [
  | none ↦ err (user_not_found user_id)
  | some u ↦
      if is_live u
      then ok ((u.credit_balance, u.credit_frozen), d)
      else err (user_not_found user_id)
]

pre_deduct_tx : ℕ → ℕ → ℤ → String → String → Action (Unit {0})
unfolding is_live
pre_deduct_tx user_id key_id amount ref_id remark = do
  n ←
      update_users user_id (λ u. some (leb_ℤ amount u.credit_balance && is_live u))
        (pos 0 -ℤ amount) amount
  raise_if (n == 0) insufficient
  balance_after ← select_balance user_id
  insert_transaction user_id key_id freeze (neg64 amount) balance_after ref_id remark

-- `Engine.PreDeduct`
pub pre_deduct : ℕ → ℕ → ℤ → String → String → Action (Unit {0})
unfolding pre_deduct_tx
pre_deduct user_id key_id amount ref_id remark =
    if leb_ℤ amount (pos 0)
    then pure tt
    else run_tx (pre_deduct_tx user_id key_id amount ref_id remark)

-- `credit_frozen + delta >= 0 AND deleted_at IS NULL`
unfoldable pub holds_frozen : ℤ → User → Option Bool
unfolding is_live
holds_frozen delta u =
    let held = u.credit_frozen +ℤ delta in
    if fits_int64 held then some (leb_ℤ (pos 0) held && is_live u) else none

-- An insert under a test, as in `Settle`.
unfoldable pub insert_if : Bool → ℕ → ℕ → Kind → ℤ → ℤ → String → String → Action (Unit {0})
insert_if b user_id key_id kind amount balance_after ref_id remark =
    if b then insert_transaction user_id key_id kind amount balance_after ref_id remark else pure tt

pub settle_tx : ℕ → ℕ → ℤ → ℤ → String → String → Action (Unit {0})
unfolding holds_frozen insert_if
settle_tx user_id key_id expected actual ref_id remark = do
  let rest = wrap64 (expected -ℤ actual)
  let frozen_delta = neg64 expected
  n ← update_users user_id (holds_frozen frozen_delta) rest frozen_delta
  raise_if (n == 0) conflict
  balance_after ← select_balance user_id
  insert_if (ltb_ℤ (pos 0) expected) user_id key_id unfreeze expected balance_after ref_id remark
  insert_if (ltb_ℤ (pos 0) actual) user_id key_id consume (neg64 actual) balance_after ref_id remark

-- `Engine.Settle`
pub settle : ℕ → ℕ → ℤ → ℤ → String → String → Action (Unit {0})
unfolding settle_tx
settle user_id key_id expected actual ref_id remark =
    if leb_ℤ expected (pos 0) && leb_ℤ actual (pos 0)
    then pure tt
    else run_tx (
        settle_tx user_id key_id expected (if ltb_ℤ actual (pos 0) then pos 0 else actual) ref_id
          remark)

refund_tx : ℕ → ℕ → ℤ → String → String → Action (Unit {0})
unfolding is_live
refund_tx user_id key_id expected ref_id remark = do
  n ←
      update_users user_id (λ u. some (leb_ℤ expected u.credit_frozen && is_live u)) expected
        (pos 0 -ℤ expected)
  raise_if (n == 0) conflict
  balance_after ← select_balance user_id
  insert_transaction user_id key_id refund expected balance_after ref_id remark

-- `Engine.Refund`
pub refund_credits : ℕ → ℕ → ℤ → String → String → Action (Unit {0})
unfolding refund_tx
refund_credits user_id key_id expected ref_id remark =
    if leb_ℤ expected (pos 0)
    then pure tt
    else run_tx (refund_tx user_id key_id expected ref_id remark)

recharge_tx : ℕ → ℤ → String → String → Action (Unit {0})
unfolding is_live
recharge_tx user_id amount ref_id remark = do
  update_users user_id (λ u. some (is_live u)) amount (pos 0)
  balance_after ← select_balance user_id
  insert_transaction user_id 0 recharge amount balance_after ref_id remark

-- `Engine.Recharge`: the number of rows affected is not looked at.
pub recharge_credits : ℕ → ℤ → String → String → Action (Unit {0})
unfolding recharge_tx
recharge_credits user_id amount ref_id remark =
    if leb_ℤ amount (pos 0)
    then raise amount_not_positive
    else run_tx (recharge_tx user_id amount ref_id remark)

-- `Engine.creditTx`, which runs inside the caller's transaction.
pub credit_tx : ℕ → ℤ → Kind → String → String → Action ℤ
unfolding is_live
credit_tx user_id amount kind ref_id remark = do
  raise_if (leb_ℤ amount (pos 0)) amount_not_positive
  n ← update_users user_id (λ u. some (is_live u)) amount (pos 0)
  raise_if (n == 0) (user_not_found user_id)
  balance_after ← select_balance user_id
  insert_transaction user_id 0 kind amount balance_after ref_id remark
  pure balance_after

-- `Engine.AwardCheckinTx`
pub award_checkin_tx : ℕ → ℤ → String → String → Action ℤ
award_checkin_tx user_id amount ref_id remark = credit_tx user_id amount checkin ref_id remark

-- `Engine.RedeemTx`
pub redeem_tx : ℕ → ℤ → String → String → Action ℤ
redeem_tx user_id amount ref_id remark = credit_tx user_id amount redeem ref_id remark
