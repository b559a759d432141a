-- ===== src/Billing/Logged.antt =====
-- The ledger row of `Recharge` in internal/billing/engine.go, whether or not the user is deleted.
use gpt2api.Prelude.{
  ℕ, String, ◌≡◌, refl, false, true, [], ◌∷◌, ◌⊎◌, inl, inr, arith, Bool-cases, ◌==◌,
}
use gpt2api.Prelude.Int.{ℤ, pos, ◌+ℤ◌, leb_ℤ, int_laws}
use gpt2api.Db.Table.{Table}
use gpt2api.Db.Rows.{Database, User, recharge}
use gpt2api.Db.Action.{Result, ok, err, Session, Ensures}
use gpt2api.Billing.{entry, recharge_credits}
use gpt2api.Billing.Posting.{post}
use gpt2api.Billing.Calls.{Posted, OnlyLogged, recharge_credits-Ensures}
use gpt2api.Billing.Account.{ledger}

-- One row of a positive amount was added to the ledger of `k`; besides it only users changed.
pub record Logged (k : ℕ) (amount : ℤ) (d d' : Database) : Type 0 where
  pub positive : leb_ℤ amount (pos 0) ≡ false
  pub now : ledger k d' ≡ ledger k d +ℤ amount
  pub others : (j : ℕ) → (j == k) ≡ false → ledger j d' ≡ ledger j d
  pub same_orders : d'.orders ≡ d.orders
  pub same_next : d'.next_order ≡ d.next_order

module _ (k : ℕ) (amount : ℤ) (ref remark : String) (d : Database)
    (positive : leb_ℤ amount (pos 0) ≡ false) where
  after_row : Table User → ℤ → Database
  after_row us b = record d {
    users = us;
    transactions = entry k 0 recharge amount b ref remark ∷ d.transactions;
  }

  after_row-Logged : (us : Table User) (b : ℤ) → Logged k amount d (after_row us b)
  unfolding after_row ledger
  after_row-Logged us b = record {
    positive = positive;
    now = grind int_laws;
    others = λ j ne. ground arith;
    same_orders = refl;
    same_next = refl;
  }

  recharged-Logged :
      (d' : Database)
      → Posted k d
          (λ _. Unit {0})
          amount
          (pos 0)
          (λ b. entry k 0 recharge amount b ref remark ∷ [])
          d'
        ⊎ OnlyLogged k d (λ b. entry k 0 recharge amount b ref remark ∷ []) d'
      → Logged k amount d d'
  unfolding Posted OnlyLogged post after_row
  recharged-Logged d' (inl (u, _, _, _, e)) = rw e (after_row-Logged _ _)
  recharged-Logged d' (inr (u, _, _, e)) = rw e (after_row-Logged _ _)

-- A successful `Recharge` logs its positive amount; one that fails changes nothing.
pub recharge_credits-Logged :
    (k : ℕ) (amount : ℤ) (ref remark : String) (s : Session)
    → Ensures s.db (λ _ d'. Logged k amount s.db d') (recharge_credits k amount ref remark s)
unfolding recharge_credits
recharge_credits-Logged k amount ref remark s = elim (Bool-cases (leb_ℤ amount (pos 0))) [
  | inl none_due ↦ refused none_due
  | inr due ↦
      onto due (recharge_credits k amount ref remark s)
        (recharge_credits-Ensures k amount ref remark s due)
]
  where
    refused :
        leb_ℤ amount (pos 0) ≡ true
        → Ensures s.db (λ _ d'. Logged k amount s.db d') (recharge_credits k amount ref remark s)
    refused e = rw e refl

    onto :
        leb_ℤ amount (pos 0) ≡ false
        → (r : Result (Unit {0}) × Session)
        → Ensures s.db
            (λ _ d'.
              Posted k s.db
                (λ _. Unit {0})
                amount
                (pos 0)
                (λ b. entry k 0 recharge amount b ref remark ∷ [])
                d'
              ⊎ OnlyLogged k s.db (λ b. entry k 0 recharge amount b ref remark ∷ []) d')
            r
        → Ensures s.db (λ _ d'. Logged k amount s.db d') r
    onto due (ok x, t) h = recharged-Logged k amount ref remark s.db due t.db h
    onto due (err e, t) h = h
