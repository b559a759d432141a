-- ===== src/Billing/Account.antt =====
-- The abstract view of internal/billing/engine.go: per user an available and a frozen amount, and
-- the sum of the user's ledger rows.
use gpt2api.Prelude.{
  ℕ, String, ◌≡◌, refl, ap, Bool, false, Option, none, some, List, [], ◌∷◌, ◌++◌, arith, ◌==◌,
  if◌then◌else◌,
}
use gpt2api.Prelude.Int.{ℤ, pos, ◌+ℤ◌, int_laws}
use gpt2api.Db.Table.{find, find-replace_self, find-replace_ne}
use gpt2api.Db.Rows.{Database, User, Transaction, Kind}
use gpt2api.Billing.{entry}
use gpt2api.Billing.Posting.{touch, post}
use gpt2api.Billing.Calls.{Posted}

pub record Account : Type 0 where
  pub available : ℤ
  pub frozen : ℤ
  pub is_deleted : Bool

abbrev pub view : Option User → Option Account
view none = none
view (some u) =
    some (record { available = u.credit_balance; frozen = u.credit_frozen; is_deleted = u.deleted })

unfoldable pub account : ℕ → Database → Option Account
account k d = view (find k d.users)

-- The sum of the ledger amounts of user `k`.
abbrev pub total : ℕ → List Transaction → ℤ
total k [] = pos 0
total k (t ∷ ts) = if t.user_id == k then t.amount +ℤ total k ts else total k ts

unfoldable pub ledger : ℕ → Database → ℤ
ledger k d = total k d.transactions

pub total-append :
    (k : ℕ) (xs ys : List Transaction) → total k (xs ++ ys) ≡ total k xs +ℤ total k ys
total-append k [] ys = omega int_laws
total-append k (t ∷ xs) ys = grind (int_laws, total-append k xs ys)

pub total-entry :
    (k key : ℕ) (kind : Kind) (amount b : ℤ) (ref remark : String) (ts : List Transaction)
    → total k (entry k key kind amount b ref remark ∷ ts) ≡ amount +ℤ total k ts
total-entry k key kind amount b ref remark ts = ground arith

-- The account after a move by the two deltas.
unfoldable pub moved : Account → ℤ → ℤ → Account
moved a available frozen = record a {
  available = a.available +ℤ available;
  frozen = a.frozen +ℤ frozen;
}

-- A move of user `k` by the two deltas, under a test of the account: the user's ledger grows by
-- what the available amount grows, and nobody else's account or ledger changes.
pub record Effect (k : ℕ) (d : Database) (Test : Account → Type 0) (available frozen : ℤ)
    (d' : Database) : Type 0 where
  pub before : Account
  pub was : account k d ≡ some before
  pub was_live : before.is_deleted ≡ false
  pub tested : Test before
  pub now : account k d' ≡ some (moved before available frozen)
  pub others : (j : ℕ) → (j == k) ≡ false → account j d' ≡ account j d
  pub ledger_now : ledger k d' ≡ ledger k d +ℤ available
  pub ledger_others : (j : ℕ) → (j == k) ≡ false → ledger j d' ≡ ledger j d

abbrev pub of_user : User → Account
of_user u = record {
  available = u.credit_balance;
  frozen = u.credit_frozen;
  is_deleted = u.deleted;
}

pub account-of_user :
    (k : ℕ) (d : Database) (u : User) → find k d.users ≡ some u → account k d ≡ some (of_user u)
unfolding account
account-of_user k d u found = rw found refl

module _ (k : ℕ) (d : Database) (Test : Account → Type 0) (available frozen : ℤ)
    (rows : ℤ → List Transaction) (logs : (b : ℤ) → total k (rows b) ≡ available)
    (owned : (b : ℤ) (j : ℕ) → (j == k) ≡ false → total j (rows b) ≡ pos 0) where
  post-Effect :
      (u : User) (b : ℤ)
      → find k d.users ≡ some u
      → u.deleted ≡ false
      → Test (of_user u)
      → Effect k d Test available frozen (post k u available frozen (rows b) d)
  unfolding account ledger moved post touch
  post-Effect u b found live test = record {
    before = of_user u;
    was = rw found refl;
    was_live = live;
    tested = test;
    now = rw (find-replace_self k _ u d.users found) refl;
    others = λ j ne. ap view (find-replace_ne j k _ d.users ne);
    ledger_now = rw (total-append k (rows b) d.transactions, logs b) (omega int_laws);
    ledger_others =
        λ j ne. rw (total-append j (rows b) d.transactions, owned b j ne) (omega int_laws);
  }

  pub Posted-Effect :
      (d' : Database)
      → Posted k d (λ u. Test (of_user u)) available frozen rows d'
      → Effect k d Test available frozen d'
  unfolding Posted
  Posted-Effect d' (u, found, live, test, e) = rw e (post-Effect u _ found live test)

-- The same for the calls that write one ledger row, whose amount is the available delta.
pub Posted-Effect_one :
    (k key : ℕ) (kind : Kind) (amount : ℤ) (ref remark : String) (d : Database)
    (Test : Account → Type 0) (available frozen : ℤ) (d' : Database)
    → amount ≡ available
    → Posted k d
        (λ u. Test (of_user u))
        available
        frozen
        (λ b. entry k key kind amount b ref remark ∷ [])
        d'
    → Effect k d Test available frozen d'
Posted-Effect_one k key kind amount ref remark d Test available frozen d' same =
    Posted-Effect k d Test available frozen (λ b. entry k key kind amount b ref remark ∷ [])
      (λ b. grind int_laws) (λ b j ne. ground arith) d'

-- Accounts and ledgers depend on two tables alone.
pub Effect-frame :
    (k : ℕ) (c d : Database) (Test : Account → Type 0) (available frozen : ℤ) (c' d' : Database)
    → d.users ≡ c.users
    → d.transactions ≡ c.transactions
    → d'.users ≡ c'.users
    → d'.transactions ≡ c'.transactions
    → (e : Effect k c Test available frozen c')
    → (e' : Effect k d Test available frozen d') × (e'.before ≡ e.before)
unfolding account ledger
Effect-frame k c d Test available frozen c' d' us ts us' ts' e = (
  record {
    before = e.before;
    was = rw us e.was;
    was_live = e.was_live;
    tested = e.tested;
    now = rw us' e.now;
    others = λ j ne. rw (us, us') (e.others j ne);
    ledger_now = rw (ts, ts') e.ledger_now;
    ledger_others = λ j ne. rw (ts, ts') (e.ledger_others j ne);
  },
  refl,
)
