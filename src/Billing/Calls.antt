-- ===== src/Billing/Calls.antt =====
-- Each call of internal/billing/engine.go: it fails and changes nothing, or it moves amounts
-- between the columns of one live user and writes the ledger rows that say so.
use gpt2api.Prelude.{
  ℕ, String, ◌≡◌, refl, true, false, ◌&&◌, some, List, [], ◌∷◌, ◌++◌, ◌⊎◌, inl, inr, arith,
  Bool-cases, Option-cases, if◌then◌else◌,
}
use gpt2api.Prelude.Int.{ℤ, pos, ◌+ℤ◌, ◌-ℤ◌, ◌≤ℤ◌, leb_ℤ, ltb_ℤ, wrap64}
use gpt2api.Db.Table.{find}
use gpt2api.Db.Rows.{Database, User, Transaction, Kind, freeze, unfreeze, consume, refund, recharge}
use gpt2api.Db.Action.{
  insufficient, conflict, user_not_found, pure, Session, Action, advance, ◌>>=◌, ◌>>◌, OnOk,
  OnOk-bind, OnOk-weaken, Ensures, run_tx-Ensures,
}
use gpt2api.Billing.{
  neg64, is_live, select_balance, holds_frozen, entry, insert_transaction, insert_if, pre_deduct_tx,
  pre_deduct, settle_tx, settle, refund_tx, refund_credits, recharge_tx, recharge_credits,
  credit_tx,
}
use gpt2api.Billing.Posting.{
  touch, post, Refused, select_balance-missing, update_users-bind, find-post_self,
  select_balance-bind, insert_transaction-OnOk, insert_if-OnOk, posting-OnOk,
}

module _ (k : ℕ) (d : Database) where
  -- One live user's columns moved by the two deltas, under a test of the row; the ledger rows,
  -- newest first, are given the new balance.
  unfoldable pub Posted : (User → Type 0) → ℤ → ℤ → (ℤ → List Transaction) → Database → Type 0
  Posted Test available frozen rows d' =
      (u : User) × (find k d.users ≡ some u)
      × (u.deleted ≡ false)
      × Test u
      × (d' ≡ post k u available frozen (rows (u.credit_balance +ℤ available)) d)

-- The ledger rows of a settlement, newest first.
abbrev pub settlement : ℕ → ℕ → String → String → ℤ → ℤ → ℤ → List Transaction
settlement k key ref remark expected actual b =
    (if ltb_ℤ (pos 0) actual then entry k key consume (neg64 actual) b ref remark ∷ [] else [])
    ++ (if ltb_ℤ (pos 0) expected then entry k key unfreeze expected b ref remark ∷ [] else [])

-- The call's reference fields, and the session that it runs in.
module _ (k key : ℕ) (ref remark : String) (s : Session) where
  -- `PreDeduct` freezes what the balance covers.
  pub pre_deduct-Ensures :
      (amount : ℤ)
      → leb_ℤ amount (pos 0) ≡ false
      → Ensures s.db
          (λ _.
            Posted k s.db
              (λ u. amount ≤ℤ u.credit_balance)
              (pos 0 -ℤ amount)
              amount
              (λ b. entry k key freeze (neg64 amount) b ref remark ∷ []))
          (pre_deduct k key amount ref remark s)
  unfolding pre_deduct Posted is_live post
  pre_deduct-Ensures amount positive = rw positive (
      run_tx-Ensures (pre_deduct_tx k key amount ref remark) _ s (
        posting-OnOk k _ (pos 0 -ℤ amount) amount insufficient
          (λ b. insert_transaction k key freeze (neg64 amount) b ref remark) _ _
          λ u hit t at.
            OnOk-weaken (insert_transaction k key freeze (neg64 amount) _ ref remark) _ _ t
              (insert_transaction-OnOk k key freeze (neg64 amount) _ ref remark t.db t refl)
              λ _ d e. (u, hit.found, ground arith, ground arith, ground arith)))

  -- `Refund` gives back what is frozen.
  pub refund_credits-Ensures :
      (expected : ℤ)
      → leb_ℤ expected (pos 0) ≡ false
      → Ensures s.db
          (λ _.
            Posted k s.db
              (λ u. expected ≤ℤ u.credit_frozen)
              expected
              (pos 0 -ℤ expected)
              (λ b. entry k key refund expected b ref remark ∷ []))
          (refund_credits k key expected ref remark s)
  unfolding refund_credits Posted is_live post
  refund_credits-Ensures expected positive = rw positive (
      run_tx-Ensures (refund_tx k key expected ref remark) _ s (
        posting-OnOk k _ expected (pos 0 -ℤ expected) conflict
          (λ b. insert_transaction k key refund expected b ref remark) _ _
          λ u hit t at.
            OnOk-weaken (insert_transaction k key refund expected _ ref remark) _ _ t
              (insert_transaction-OnOk k key refund expected _ ref remark t.db t refl)
              λ _ d e. (u, hit.found, ground arith, ground arith, ground arith)))

  -- `Settle` releases what was frozen and keeps what was used.
  settle_tx-OnOk :
      (expected actual : ℤ) (t : Session)
      → t.db ≡ s.db
      → OnOk
          (λ _.
            Posted k s.db
              (λ u. pos 0 ≤ℤ u.credit_frozen +ℤ neg64 expected)
              (wrap64 (expected -ℤ actual))
              (neg64 expected)
              (settlement k key ref remark expected actual))
          (settle_tx k key expected actual ref remark t)
  unfolding settle_tx Posted is_live post
  settle_tx-OnOk expected actual t same =
      posting-OnOk k (holds_frozen (neg64 expected)) (wrap64 (expected -ℤ actual)) (neg64 expected)
        conflict rest _ t
        λ u hit t' at.
          OnOk-bind (first (u.credit_balance +ℤ wrap64 (expected -ℤ actual)))
            (λ _. second (u.credit_balance +ℤ wrap64 (expected -ℤ actual))) _ _ t'
            (insert_if-OnOk k key unfreeze expected _ ref remark t'.db _ t' refl)
            λ _ d e t'' at'.
              OnOk-weaken (second (u.credit_balance +ℤ wrap64 (expected -ℤ actual))) _ _ t''
                (insert_if-OnOk k key consume (neg64 actual) _ ref remark t''.db _ t'' refl)
                λ _ d' e'. (u, ground arith, ground arith, ground arith, ground arith)
    where
      first : ℤ → Action (Unit {0})
      first b = insert_if (ltb_ℤ (pos 0) expected) k key unfreeze expected b ref remark

      second : ℤ → Action (Unit {0})
      second b = insert_if (ltb_ℤ (pos 0) actual) k key consume (neg64 actual) b ref remark

      rest : ℤ → Action (Unit {0})
      rest b = first b >> second b

  -- A negative use counts as none; a call with neither amount positive does nothing.
  pub settle-Ensures :
      (expected actual : ℤ)
      → (leb_ℤ expected (pos 0) && leb_ℤ actual (pos 0)) ≡ false
      → let used = if ltb_ℤ actual (pos 0) then pos 0 else actual in
        Ensures s.db
          (λ _.
            Posted k s.db
              (λ u. pos 0 ≤ℤ u.credit_frozen +ℤ neg64 expected)
              (wrap64 (expected -ℤ used))
              (neg64 expected)
              (settlement k key ref remark expected used))
          (settle k key expected actual ref remark s)
  unfolding settle
  settle-Ensures expected actual some_positive =
      rw some_positive (run_tx-Ensures _ _ s (settle_tx-OnOk expected _ (advance s) refl))

-- A row added for a user who was soft-deleted, with the balance left as it was.
unfoldable pub OnlyLogged : ℕ → Database → (ℤ → List Transaction) → Database → Type 0
OnlyLogged k d rows d' =
    (u : User) × (find k d.users ≡ some u)
    × (u.deleted ≡ true)
    × (d' ≡ record d { transactions = rows u.credit_balance ++ d.transactions })

module _ (k : ℕ) (amount : ℤ) (ref remark : String) (s : Session) where
  abbrev recharge_row : ℤ → List Transaction
  recharge_row b = entry k 0 recharge amount b ref remark ∷ []

  abbrev log_recharge : ℤ → Action (Unit {0})
  log_recharge b = insert_transaction k 0 recharge amount b ref remark

  abbrev Recharged : Unit {0} → Database → Type 0
  Recharged _ d' =
      Posted k s.db (λ _. Unit {0}) amount (pos 0) recharge_row d'
      ⊎ OnlyLogged k s.db recharge_row d'

  recharge_missed :
      Refused k (λ u. some (is_live u)) amount (pos 0) s.db
      → (t : Session) → t.db ≡ s.db
      → OnOk Recharged ((select_balance k >>= log_recharge) t)
  unfolding OnlyLogged is_live
  recharge_missed refused t at = elim (Option-cases (find k s.db.users)) [
    | inl absent ↦ select_balance-missing k s.db log_recharge Recharged t at absent
    | inr (u, found) ↦ select_balance-bind k u s.db log_recharge Recharged t at found λ t' at'.
        OnOk-weaken (log_recharge u.credit_balance) _ Recharged t'
          (insert_transaction-OnOk k 0 recharge amount _ ref remark s.db t' at')
          λ _ d e. inr (u, found, ground (arith, refused u found), e)
  ]

  -- `Recharge` adds to a live user's balance. For a soft-deleted user it writes the row alone.
  pub recharge_credits-Ensures :
      leb_ℤ amount (pos 0) ≡ false → Ensures s.db Recharged (recharge_credits k amount ref remark s)
  unfolding recharge_credits Posted is_live post touch
  recharge_credits-Ensures positive = rw positive (
      run_tx-Ensures (recharge_tx k amount ref remark) _ s (
        update_users-bind k _ amount (pos 0) s.db (λ _. select_balance k >>= log_recharge) _ _ refl
          recharge_missed
          λ u hit t at.
            select_balance-bind k (touch u amount (pos 0)) t.db log_recharge _ t refl
              (rw at (find-post_self k _ amount (pos 0) s.db u [] hit))
              λ t' at'.
                OnOk-weaken (log_recharge (u.credit_balance +ℤ amount)) _ _ t'
                  (insert_transaction-OnOk k 0 recharge amount _ ref remark t'.db t' refl)
                  λ _ d e. inl (u, hit.found, ground arith, tt, ground arith)))

-- `creditTx`, inside the caller's transaction: it returns the new balance of a live user.
pub credit_tx-OnOk :
    (k : ℕ) (amount : ℤ) (kind : Kind) (ref remark : String) (s : Session)
    → OnOk
        (λ b d'.
          (leb_ℤ amount (pos 0) ≡ false)
          × ((u : User) × (find k s.db.users ≡ some u) × (b ≡ u.credit_balance +ℤ amount))
          × Posted k s.db
              (λ _. Unit {0})
              amount
              (pos 0)
              (λ b. entry k 0 kind amount b ref remark ∷ [])
              d')
        (credit_tx k amount kind ref remark s)
unfolding credit_tx Posted is_live post
credit_tx-OnOk k amount kind ref remark s = elim (Bool-cases (leb_ℤ amount (pos 0))) [
  | inl none_given ↦ rw none_given tt
  | inr positive ↦ rw positive (
      posting-OnOk k _ amount (pos 0) (user_not_found k)
        (λ b. insert_transaction k 0 kind amount b ref remark >> pure b) _ s
        λ u hit t at.
          OnOk-bind (insert_transaction k 0 kind amount (u.credit_balance +ℤ amount) ref remark)
            (λ _. pure (u.credit_balance +ℤ amount)) _ _ t
            (insert_transaction-OnOk k 0 kind amount _ ref remark t.db t refl)
            λ _ d e t' at'.
              (refl, (u, hit.found, refl), (u, hit.found, ground arith, tt, ground arith)))
]
