-- ===== src/Billing/Credit.antt =====
-- `creditTx` of internal/billing/engine.go, and the two calls that use it inside the transactions
-- of the check-in and the redeem code.
use gpt2api.Prelude.{ℕ, String, ◌≡◌, refl, false, some, [], ◌∷◌}
use gpt2api.Prelude.Int.{ℤ, pos, ◌+ℤ◌, leb_ℤ}
use gpt2api.Db.Table.{find}
use gpt2api.Db.Rows.{Database, User, Kind, checkin, redeem}
use gpt2api.Db.Action.{Session, OnOk, OnOk-weaken}
use gpt2api.Billing.{entry, credit_tx, award_checkin_tx, redeem_tx}
use gpt2api.Billing.Posting.{post}
use gpt2api.Billing.Calls.{Posted, credit_tx-OnOk}
use gpt2api.Billing.Account.{account-of_user, of_user, Effect, Posted-Effect_one}

-- A positive amount was added to the account of `k`, and only users and ledger were touched.
pub record Credited (k : ℕ) (amount : ℤ) (d : Database) (b : ℤ) (d' : Database) : Type 0 where
  pub positive : leb_ℤ amount (pos 0) ≡ false
  pub effect : Effect k d (λ _. Unit {0}) amount (pos 0) d'
  pub after : b ≡ effect.before.available +ℤ amount
  pub frame : d' ≡ record d { users = d'.users; transactions = d'.transactions }

of_posting :
    (k : ℕ) (amount : ℤ) (kind : Kind) (ref remark : String) (d : Database) (b : ℤ) (d' : Database)
    → leb_ℤ amount (pos 0) ≡ false
    → (u : User) → find k d.users ≡ some u
    → b ≡ u.credit_balance +ℤ amount
    → Posted k d (λ _. Unit {0}) amount (pos 0) (λ c. entry k 0 kind amount c ref remark ∷ []) d'
    → Credited k amount d b d'
unfolding Posted post
of_posting k amount kind ref remark d b d' positive u found is_new (v, at, live, _, new) =
    let e : Effect k d (λ _. Unit {0}) amount (pos 0) d' =
      Posted-Effect_one k 0 kind amount ref remark d (λ _. Unit {0}) amount (pos 0) d' refl
        (v, at, live, tt, new) in
    let same : e.before ≡ of_user u = cc (e.was, account-of_user k d u found) in
    record { positive = positive; effect = e; after = rw (is_new, same) refl; frame = rw new refl }

pub credit_tx-Credited :
    (k : ℕ) (amount : ℤ) (kind : Kind) (ref remark : String) (s : Session)
    → OnOk (Credited k amount s.db) (credit_tx k amount kind ref remark s)
credit_tx-Credited k amount kind ref remark s =
    OnOk-weaken (credit_tx k amount kind ref remark) _ (Credited k amount s.db) s
      (credit_tx-OnOk k amount kind ref remark s)
      λ b d' q. of_posting k amount kind ref remark s.db b d' q.0 (q.1).0 (q.1).1 (q.1).2 q.2

pub award_checkin_tx-Credited :
    (k : ℕ) (amount : ℤ) (ref remark : String) (s : Session)
    → OnOk (Credited k amount s.db) (award_checkin_tx k amount ref remark s)
unfolding award_checkin_tx
award_checkin_tx-Credited k amount ref remark s = credit_tx-Credited k amount checkin ref remark s

pub redeem_tx-Credited :
    (k : ℕ) (amount : ℤ) (ref remark : String) (s : Session)
    → OnOk (Credited k amount s.db) (redeem_tx k amount ref remark s)
unfolding redeem_tx
redeem_tx-Credited k amount ref remark s = credit_tx-Credited k amount redeem ref remark s
