-- ===== src/Billing/Lifecycle.antt =====
-- A request from reservation to settlement or refund in internal/billing/engine.go, where the
-- driver does not fail.
use gpt2api.Prelude.{ℕ, ◌+◌, String, ◌≡◌, false, some, [], ◌∷◌, arith}
use gpt2api.Prelude.Int.{ℤ, pos, ◌+ℤ◌, ◌-ℤ◌, ◌≤ℤ◌, ◌<ℤ◌, InInt64, int_laws, InInt64→fits}
use gpt2api.Db.Table.{find, find-replace_self}
use gpt2api.Db.Rows.{Database, User, freeze}
use gpt2api.Db.Action.{ok, ◌>>◌}
use gpt2api.Billing.{neg64, pre_deduct, settle, entry}
use gpt2api.Billing.Posting.{post, touch}
use gpt2api.Billing.Account.{ledger, total-entry}
use gpt2api.Billing.Effects.{neg64-InInt64}
use gpt2api.Billing.Calm.{calm, pre_deduct-calm, Holds, settle-Holds, >>-ok}

module _ (k key : ℕ) (expected : ℤ) (ref remark : String) (d : Database) (n : ℕ) (u : User)
    (found : find k d.users ≡ some u) (live : u.deleted ≡ false) (positive : pos 0 <ℤ expected)
    (range : InInt64 expected) where
  -- The row after the reservation, and the database that holds it.
  abbrev pub reserved : User
  reserved = touch u (pos 0 -ℤ expected) expected

  abbrev pub after_reserve : Database
  after_reserve =
      post k u (pos 0 -ℤ expected) expected
        (entry k key freeze (neg64 expected) (u.credit_balance +ℤ (pos 0 -ℤ expected)) ref remark
          ∷ [])
        d

  pub reserve_runs :
      expected ≤ℤ u.credit_balance
      → pos 0 ≤ℤ u.credit_frozen
      → InInt64 u.credit_balance
      → InInt64 (u.credit_frozen +ℤ expected)
      → pre_deduct k key expected ref remark (calm d n)
        ≡ (ok tt, calm after_reserve (n + 1 + 1 + 1 + 1 + 1))
  reserve_runs covered held rb rf =
      pre_deduct-calm k key u d n expected ref remark found live positive covered
        (InInt64→fits (u.credit_balance +ℤ (pos 0 -ℤ expected))
          (record { above = omega int_laws; below = omega int_laws }))
        (InInt64→fits (u.credit_frozen +ℤ expected) rf)

  pub ledger-after_reserve : ledger k after_reserve ≡ ledger k d +ℤ (pos 0 -ℤ expected)
  unfolding ledger post
  ledger-after_reserve =
      let e : neg64 expected ≡ pos 0 -ℤ expected = neg64-InInt64 expected (omega arith) range in
      rw (total-entry k key freeze (neg64 expected) _ ref remark d.transactions, e) (omega int_laws)

  pub found-after_reserve : find k after_reserve.users ≡ some reserved
  unfolding post
  found-after_reserve = find-replace_self k reserved u d.users found

  -- A reservation that the balance covers, settled for at most what was reserved: both calls
  -- succeed, the use is paid, nothing stays frozen, and the ledger shows the use.
  pub reserve_then_settle :
      (actual : ℤ)
      → pos 0 ≤ℤ actual
      → actual ≤ℤ expected
      → expected ≤ℤ u.credit_balance
      → pos 0 ≤ℤ u.credit_frozen
      → InInt64 u.credit_balance
      → InInt64 (u.credit_frozen +ℤ expected)
      → Holds k (u.credit_balance -ℤ actual) u.credit_frozen (ledger k d -ℤ actual) (
          (pre_deduct k key expected ref remark >> settle k key expected actual ref remark)
            (calm d n))
  unfolding touch
  reserve_then_settle actual ha within covered held rb rf =
      rw (>>-ok _ (settle k key expected actual ref remark) _ _ (reserve_runs covered held rb rf)) (
        rw (paid, free, shown) at
          (settle-Holds k key expected ref remark after_reserve (n + 1 + 1 + 1 + 1 + 1) reserved
            found-after_reserve live positive range actual ha
            (record { above = omega int_laws; below = omega int_laws }) (omega int_laws) rf
            (record { above = omega int_laws; below = omega int_laws })))
    where
      paid : reserved.credit_balance +ℤ (expected -ℤ actual) ≡ u.credit_balance -ℤ actual
      paid = omega int_laws

      free : reserved.credit_frozen +ℤ (pos 0 -ℤ expected) ≡ u.credit_frozen
      free = omega int_laws

      shown : ledger k after_reserve +ℤ (expected -ℤ actual) ≡ ledger k d -ℤ actual
      shown = rw ledger-after_reserve (omega int_laws)
