-- ===== src/Billing/Effects.antt =====
-- The calls of internal/billing/engine.go as moves of abstract accounts.
use gpt2api.Prelude.{
  ℕ, String, ◌≡◌, refl, ◌∙◌, true, false, ◌&&◌, List, [], ◌∷◌, ◌++◌, ◌⊎◌, inl, inr, arith, some,
  sym, if◌then◌else◌, ◌==◌,
}
use gpt2api.Prelude.Int.{
  ℤ, pos, ◌+ℤ◌, ◌-ℤ◌, ◌≤ℤ◌, ◌<ℤ◌, leb_ℤ, ltb_ℤ, wrap64, InInt64, wrap64-InInt64_self, int_laws,
}
use mathlib.Core.Bool.{false≢true}
use gpt2api.Db.Table.{find}
use gpt2api.Db.Rows.{Database, Transaction, User, freeze, refund, recharge}
use gpt2api.Db.Action.{Result, ok, err, Session, Ensures}
use gpt2api.Billing.{entry, neg64, pre_deduct, settle, refund_credits, recharge_credits}
use gpt2api.Billing.Calls.{
  Posted, OnlyLogged, pre_deduct-Ensures, refund_credits-Ensures, settlement, settle-Ensures,
  recharge_credits-Ensures,
}
use gpt2api.Billing.Account.{
  Account, account, account-of_user, ledger, Effect, Posted-Effect, Posted-Effect_one, total,
}

-- The postcondition of a call that moves the account of `k`, or fails and changes nothing.
abbrev pub Moves : ℕ → (Account → Type 0) → ℤ → ℤ → Session → Result (Unit {0}) × Session → Type 0
Moves k Test available frozen s = Ensures s.db (λ _. Effect k s.db Test available frozen)

pub neg64-InInt64 : (a : ℤ) → pos 0 ≤ℤ a → InInt64 a → neg64 a ≡ pos 0 -ℤ a
unfolding neg64
neg64-InInt64 a positive range =
    wrap64-InInt64_self (pos 0 -ℤ a) (record { above = omega int_laws; below = omega int_laws })

pub used_of_nonneg :
    (actual : ℤ) → pos 0 ≤ℤ actual → (if ltb_ℤ actual (pos 0) then pos 0 else actual) ≡ actual
used_of_nonneg actual h = ground arith

-- What a settlement gives back does not wrap.
pub kept_exact :
    (expected actual : ℤ)
    → pos 0 ≤ℤ expected
    → InInt64 expected
    → pos 0 ≤ℤ actual
    → InInt64 actual
    → wrap64 (expected -ℤ actual) ≡ expected -ℤ actual
kept_exact expected actual he re ha ra =
    wrap64-InInt64_self (expected -ℤ actual)
      (record { above = omega int_laws; below = omega int_laws })

Ensures-map :
    (d : Database) (P Q : Unit {0} → Database → Type 0) (r : Result (Unit {0}) × Session)
    → ((a : Unit {0}) (d' : Database) → P a d' → Q a d')
    → Ensures d P r
    → Ensures d Q r
Ensures-map d P Q (ok a, s) f h = f a s.db h
Ensures-map d P Q (err e, s) f h = h

module _ (k key : ℕ) (ref remark : String) (s : Session) where
  -- A successful `PreDeduct` of a positive amount moves it from available to frozen, and the
  -- available amount covered it.
  pub pre_deduct-Moves :
      (amount : ℤ)
      → pos 0 <ℤ amount
      → InInt64 amount
      → Moves k
          (λ a. amount ≤ℤ a.available)
          (pos 0 -ℤ amount)
          amount
          s
          (pre_deduct k key amount ref remark s)
  pre_deduct-Moves amount positive range =
      Ensures-map s.db _ _ (pre_deduct k key amount ref remark s)
        (λ _ d'.
          Posted-Effect_one k key freeze (neg64 amount) ref remark s.db (λ a. amount ≤ℤ a.available)
            (pos 0 -ℤ amount) amount d' (neg64-InInt64 amount (omega arith) range))
        (pre_deduct-Ensures k key ref remark s amount (ground arith))

  -- A successful `Refund` moves a positive amount back, and the frozen amount covered it.
  pub refund_credits-Moves :
      (expected : ℤ)
      → pos 0 <ℤ expected
      → Moves k
          (λ a. expected ≤ℤ a.frozen)
          expected
          (pos 0 -ℤ expected)
          s
          (refund_credits k key expected ref remark s)
  refund_credits-Moves expected positive =
      Ensures-map s.db _ _ (refund_credits k key expected ref remark s)
        (λ _ d'.
          Posted-Effect_one k key refund expected ref remark s.db (λ a. expected ≤ℤ a.frozen)
            expected (pos 0 -ℤ expected) d' refl)
        (refund_credits-Ensures k key ref remark s expected (ground arith))

  settle-covered :
      (expected available : ℤ) (rows : ℤ → List Transaction) (d' : Database)
      → Posted k s.db
          (λ u. pos 0 ≤ℤ u.credit_frozen +ℤ (pos 0 -ℤ expected))
          available
          (pos 0 -ℤ expected)
          rows
          d'
      → Posted k s.db (λ u. expected ≤ℤ u.credit_frozen) available (pos 0 -ℤ expected) rows d'
  unfolding Posted
  settle-covered expected available rows d' (u, found, live, test, e) =
      (u, found, live, omega int_laws, e)

  total-settlement :
      (expected actual b : ℤ)
      → pos 0 ≤ℤ expected
      → InInt64 expected
      → pos 0 ≤ℤ actual
      → InInt64 actual
      → total k (settlement k key ref remark expected actual b) ≡ expected -ℤ actual
  total-settlement expected actual b he re ha ra = grind (int_laws, neg64-InInt64 actual ha ra)

  total-settlement_other :
      (expected actual b : ℤ) (j : ℕ)
      → (j == k) ≡ false
      → total j (settlement k key ref remark expected actual b) ≡ pos 0
  total-settlement_other expected actual b j ne = ground arith

  -- A successful `Settle` of non-negative amounts, one of them positive, takes what was frozen and
  -- gives back what was not used; the frozen amount covered it.
  pub settle-Moves :
      (expected actual : ℤ)
      → pos 0 ≤ℤ expected
      → InInt64 expected
      → pos 0 ≤ℤ actual
      → InInt64 actual
      → pos 0 <ℤ expected +ℤ actual
      → Moves k
          (λ a. expected ≤ℤ a.frozen)
          (expected -ℤ actual)
          (pos 0 -ℤ expected)
          s
          (settle k key expected actual ref remark s)
  settle-Moves expected actual he re ha ra positive =
      Ensures-map s.db _ _ (settle k key expected actual ref remark s)
        (λ _ d' p.
          Posted-Effect k s.db (λ a. expected ≤ℤ a.frozen) (expected -ℤ actual) (pos 0 -ℤ expected)
            (settlement k key ref remark expected actual)
            (λ b. total-settlement expected actual b he re ha ra)
            (λ b j ne. total-settlement_other expected actual b j ne) d'
            (settle-covered expected (expected -ℤ actual)
              (settlement k key ref remark expected actual) d' p))
        (rw
          (
            used_of_nonneg actual ha,
            kept_exact expected actual (omega arith) re ha ra,
            neg64-InInt64 expected he re,
          )
          at (settle-Ensures k key ref remark s expected actual some_positive))
    where
      some_positive : (leb_ℤ expected (pos 0) && leb_ℤ actual (pos 0)) ≡ false
      some_positive = grind int_laws

module _ (k : ℕ) (amount : ℤ) (positive : pos 0 <ℤ amount) (ref remark : String) (s : Session)
    (a : Account) (is_there : account k s.db ≡ some a) where
  abbrev recharge_rows : ℤ → List Transaction
  recharge_rows b = entry k 0 recharge amount b ref remark ∷ []

  same_row : (u : User) → find k s.db.users ≡ some u → a.is_deleted ≡ u.deleted
  same_row u found = ground (arith, account-of_user k s.db u found)

  -- A successful `Recharge` of a live user adds the amount to the available one.
  pub recharge_credits-Moves :
      a.is_deleted ≡ false
      → Moves k (λ _. Unit {0}) amount (pos 0) s (recharge_credits k amount ref remark s)
  unfolding OnlyLogged
  recharge_credits-Moves live =
      Ensures-map s.db _ _ (recharge_credits k amount ref remark s) onto
        (recharge_credits-Ensures k amount ref remark s (ground arith))
    where
      onto :
          Unit {0}
          → (d' : Database)
          → Posted k s.db (λ _. Unit {0}) amount (pos 0) recharge_rows d'
            ⊎ OnlyLogged k s.db recharge_rows d'
          → Effect k s.db (λ _. Unit {0}) amount (pos 0) d'
      onto _ d' (inl p) =
          Posted-Effect_one k 0 recharge amount ref remark s.db (λ _. Unit {0}) amount (pos 0) d'
            refl p
      onto _ d' (inr (u, found, gone, e)) = absurd (false≢true (sym live ∙ same_row u found ∙ gone))

  -- What a `Recharge` of a soft-deleted user leaves.
  abbrev pub LogsAlone : Unit {0} → Database → Type 0
  LogsAlone _ d' = (account k d' ≡ account k s.db) × (ledger k d' ≡ ledger k s.db +ℤ amount)

  only_logged :
      (b : ℤ) → LogsAlone tt (record (s.db) { transactions = recharge_rows b ++ s.db.transactions })
  unfolding account ledger
  only_logged b = (refl, grind int_laws)

  -- A successful `Recharge` of a soft-deleted user logs the amount and credits nothing.
  pub recharge_credits_deleted :
      a.is_deleted ≡ true → Ensures s.db LogsAlone (recharge_credits k amount ref remark s)
  unfolding OnlyLogged Posted
  recharge_credits_deleted gone =
      Ensures-map s.db _ LogsAlone (recharge_credits k amount ref remark s) onto
        (recharge_credits-Ensures k amount ref remark s (ground arith))
    where
      onto :
          Unit {0}
          → (d' : Database)
          → Posted k s.db (λ _. Unit {0}) amount (pos 0) recharge_rows d'
            ⊎ OnlyLogged k s.db recharge_rows d'
          → LogsAlone tt d'
      onto _ d' (inl p) = absurd (false≢true (sym (p.2) ∙ sym (same_row p.0 p.1) ∙ gone))
      onto _ d' (inr (u, found, deleted, e)) = rw e (only_logged u.credit_balance)
