-- ===== src/Billing/Posting.antt =====
-- What the statements of internal/billing/engine.go do to the database when they succeed.
use gpt2api.Prelude.{
  ℕ, ◌+◌, String, ◌≡◌, refl, ◌∙◌, Bool, true, false, Option, none, some, List, [], ◌∷◌, ◌++◌, ◌⊎◌,
  inl, inr, arith, ltb, ◌==◌, Bool-cases, Option-cases, if◌then◌else◌,
}
use gpt2api.Prelude.Int.{ℤ, ◌+ℤ◌, fits_int64}
use gpt2api.Db.Table.{find, replace, find-replace_self}
use gpt2api.Db.Rows.{Database, User, Transaction, Kind}
use gpt2api.Db.Action.{
  Error, Session, Action, raise_if, ◌>>=◌, ◌>>◌, OnOk, OnOk-bind, statement-OnOk,
}
use gpt2api.Billing.{update_users, select_balance, entry, insert_transaction, insert_if}

-- The user row after an update by the two deltas.
unfoldable pub touch : User → ℤ → ℤ → User
touch u available frozen = record u {
  credit_balance = u.credit_balance +ℤ available;
  credit_frozen = u.credit_frozen +ℤ frozen;
  version = u.version + 1;
}

-- The database after such an update of row `k`, with `rows` added to the ledger.
unfoldable pub post : ℕ → User → ℤ → ℤ → List Transaction → Database → Database
post k u available frozen rows d = record d {
  users = replace k (touch u available frozen) d.users;
  transactions = rows ++ d.transactions;
}

module _ (k : ℕ) (guard : User → Option Bool) (available frozen : ℤ) (d : Database) where
  -- The row that an update found, and what its guard and its columns allowed.
  pub record Hit (u : User) : Type 0 where
    pub found : find k d.users ≡ some u
    pub allowed : guard u ≡ some true
    pub balance_fits : fits_int64 (u.credit_balance +ℤ available) ≡ true
    pub frozen_fits : fits_int64 (u.credit_frozen +ℤ frozen) ≡ true

  -- No row has the key, or the guard does not hold of the one that has it.
  abbrev pub Refused : Type 0
  Refused = (u : User) → find k d.users ≡ some u → guard u ≡ some false

  -- No row fits, or the one row is updated and both columns hold the result.
  abbrev Outcome : ℕ → Database → Type 0
  Outcome n d' =
      ((n ≡ 0) × (d' ≡ d) × Refused)
      ⊎ ((u : User) × Hit u × (n ≡ 1) × (d' ≡ post k u available frozen [] d))

  update_users-Outcome :
      (s : Session) → s.db ≡ d → OnOk Outcome (update_users k guard available frozen s)
  unfolding update_users post touch
  update_users-Outcome s at = statement-OnOk _ Outcome s λ n d' e.
      elim (Option-cases (find k d.users)) [
        | inl absent ↦ inl (ground arith, ground arith, λ v at_v. ground arith)
        | inr (u, found) ↦ elim (Bool-cases (ltb n 1)) [
          | inl less ↦ inl (ground arith, ground arith, λ v at_v. ground arith)
          | inr more ↦ inr (u, ground arith, ground arith, ground arith)
        ]
      ]

  -- After an update a chain goes on with no row affected, or with the row touched.
  pub update_users-bind :
      {B : Type 0} (f : ℕ → Action B) (P : B → Database → Type 0) (s : Session)
      → s.db ≡ d
      → (Refused → (t : Session) → t.db ≡ d → OnOk P (f 0 t))
      → ((u : User)
          → Hit u
          → (t : Session) → t.db ≡ post k u available frozen [] d
          → OnOk P (f 1 t))
      → OnOk P ((update_users k guard available frozen >>= f) s)
  update_users-bind f P s at missed hit =
      OnOk-bind (update_users k guard available frozen) f Outcome P s (update_users-Outcome s at)
        next
    where
      next : (n : ℕ) (d' : Database) → Outcome n d' → (t : Session) → t.db ≡ d' → OnOk P (f n t)
      next n d' (inl (e, same, refused)) t at' = rw e (missed refused t (at' ∙ same))
      next n d' (inr (u, h, e, new)) t at' = rw e (hit u h t (at' ∙ new))

  -- The row after the update holds the new balance.
  pub find-post_self :
      (u : User) (rows : List Transaction)
      → Hit u
      → find k (post k u available frozen rows d).users ≡ some (touch u available frozen)
  unfolding post
  find-post_self u rows h = find-replace_self k (touch u available frozen) u d.users h.found

module _ (k : ℕ) (u : User) (d : Database) where
  -- What the read of a known row gives.
  abbrev Reads : ℤ → Database → Type 0
  Reads b d' = (b ≡ u.credit_balance) × (d' ≡ d)

  select_balance-OnOk :
      (s : Session) → s.db ≡ d → find k d.users ≡ some u → OnOk Reads (select_balance k s)
  unfolding select_balance
  select_balance-OnOk s at found = statement-OnOk _ Reads s λ b d' e. (ground arith, ground arith)

  -- `SELECT credit_balance` in a chain.
  pub select_balance-bind :
      {B : Type 0} (f : ℤ → Action B) (P : B → Database → Type 0) (s : Session)
      → s.db ≡ d
      → find k d.users ≡ some u
      → ((t : Session) → t.db ≡ d → OnOk P (f u.credit_balance t))
      → OnOk P ((select_balance k >>= f) s)
  select_balance-bind f P s at found next =
      OnOk-bind (select_balance k) f Reads P s (select_balance-OnOk s at found)
        λ b d' e t at'. rw e.0 (next t (at' ∙ e.1))

pub select_balance-missing :
    {B : Type 0} (k : ℕ) (d : Database) (f : ℤ → Action B) (P : B → Database → Type 0) (s : Session)
    → s.db ≡ d
    → find k d.users ≡ none
    → OnOk P ((select_balance k >>= f) s)
unfolding select_balance
select_balance-missing k d f P s at absent =
    OnOk-bind (select_balance k) f (λ _ _. ⊥) P s
      (statement-OnOk _ (λ _ _. ⊥) s λ b d' e. ground arith) λ b d' e t at'. absurd e

-- New rows in the ledger, and no other change.
abbrev pub Adds : List Transaction → Database → Unit {0} → Database → Type 0
Adds rows d _ d' = d' ≡ record d { transactions = rows ++ d.transactions }

module _ (user_id key_id : ℕ) (kind : Kind) (amount balance_after : ℤ) (ref_id remark : String)
    (d : Database) where
  abbrev row : Transaction
  row = entry user_id key_id kind amount balance_after ref_id remark

  pub insert_transaction-OnOk :
      (s : Session)
      → s.db ≡ d
      → OnOk
          (Adds (row ∷ []) d)
          (insert_transaction user_id key_id kind amount balance_after ref_id remark s)
  unfolding insert_transaction
  insert_transaction-OnOk s at = statement-OnOk _ (Adds (row ∷ []) d) s λ _ d' e. ground arith

  pub insert_if-OnOk :
      (b : Bool) (s : Session)
      → s.db ≡ d
      → OnOk
          (Adds (if b then row ∷ [] else []) d)
          (insert_if b user_id key_id kind amount balance_after ref_id remark s)
  unfolding insert_if
  insert_if-OnOk true s at = insert_transaction-OnOk s at
  insert_if-OnOk false s at = at

-- The shape that the calls of the engine share: update, refuse if no row fits, read the balance.
pub posting-OnOk :
    {B : Type 0} (k : ℕ) (guard : User → Option Bool) (available frozen : ℤ) (e : Error)
    (rest : ℤ → Action B) (P : B → Database → Type 0) (s : Session)
    → ((u : User)
        → Hit k guard available frozen s.db u
        → (t : Session) → t.db ≡ post k u available frozen [] s.db
        → OnOk P (rest (u.credit_balance +ℤ available) t))
    → OnOk P (
        (update_users k guard available frozen >>= λ n.
        raise_if (n == 0) e >> (select_balance k >>= rest))
          s)
unfolding touch
posting-OnOk k guard available frozen e rest P s next =
    update_users-bind k guard available frozen s.db
      (λ n. raise_if (n == 0) e >> (select_balance k >>= rest)) P s refl (λ _ t at. tt)
      λ u hit t at.
        select_balance-bind k (touch u available frozen) t.db rest P t refl
          (rw at (find-post_self k guard available frozen s.db u [] hit))
          (λ t' at'. next u hit t' (at' ∙ at))
