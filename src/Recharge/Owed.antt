-- ===== src/Recharge/Owed.antt =====
-- What the pending orders of internal/recharge would still credit to a user.
use gpt2api.Prelude.{
  ℕ, ◌+◌, ◌≤◌, ◌≡◌, refl, Bool, true, false, none, some, [], ◌∷◌, arith, ◌==◌, if◌then◌else◌,
  Bool-cases, inl, inr,
}
use gpt2api.Prelude.Int.{pos_part}
use gpt2api.Db.Table.{Table, find, replace}
use gpt2api.Db.Keys.{IsKeyed}
use gpt2api.Db.Rows.{Order, expired}
use gpt2api.Recharge.{is_pending, total_credits, is_overdue, expire_rows}

-- The credits of an order, if they are positive.
unfoldable pub due : Order → ℕ
due o = pos_part (total_credits o)

-- The share of user `k` in an order.
abbrev pub share : ℕ → Order → ℕ
share k o = if o.user_id == k then due o else 0

-- The part of a row in what user `k` is owed.
abbrev pub open_share : ℕ → Order → ℕ
open_share k o = if is_pending o.status then share k o else 0

abbrev pub owed : ℕ → Table Order → ℕ
owed k [] = 0
owed k ((id, o) ∷ t) = open_share k o + owed k t

-- An order that leaves the pending ones takes its share along.
pub owed-replace :
    (k id : ℕ) (o o' : Order) (t : Table Order)
    → find id t ≡ some o
    → is_pending o.status ≡ true
    → is_pending o'.status ≡ false
    → owed k (replace id o' t) + share k o ≡ owed k t
unfolding find replace
owed-replace k id o o' [] found was now = ground arith
owed-replace k id o o' ((j, c) ∷ t) found was now = ground (arith, owed-replace k id o o' t)

abbrev pub expire_row : ℕ → ℕ → Order → Order
expire_row now minutes o = if is_overdue now minutes o then record o { status = expired } else o

pub owed-expire :
    (k now minutes : ℕ) (t : Table Order) → owed k (expire_rows now minutes t) ≤ owed k t
unfolding expire_rows
owed-expire k now minutes [] = omega arith
owed-expire k now minutes ((j, c) ∷ t) = elim (Bool-cases (is_overdue now minutes c)) [
  | inl late ↦ rw late (omega (arith, owed-expire k now minutes t))
  | inr fresh ↦ rw fresh (omega (arith, owed-expire k now minutes t))
]

pub find-expire :
    (id now minutes : ℕ) (o : Order) (t : Table Order)
    → find id t ≡ some o
    → find id (expire_rows now minutes t) ≡ some (expire_row now minutes o)
unfolding find expire_rows
find-expire id now minutes o [] found = ground arith
find-expire id now minutes o ((j, c) ∷ t) found = ground (arith, find-expire id now minutes o t)

find-expire-none :
    (id now minutes : ℕ) (t : Table Order)
    → find id t ≡ none
    → find id (expire_rows now minutes t) ≡ none
unfolding find expire_rows
find-expire-none id now minutes [] found = refl
find-expire-none id now minutes ((j, c) ∷ t) found =
    ground (arith, find-expire-none id now minutes t)

pub expire-IsKeyed :
    (n now minutes : ℕ) (t : Table Order) → IsKeyed n t → IsKeyed n (expire_rows now minutes t)
unfolding expire_rows
expire-IsKeyed n now minutes [] h = h
expire-IsKeyed n now minutes ((j, c) ∷ t) (lt, new, rest) =
    keep (is_overdue now minutes c) (expire-IsKeyed n now minutes t rest)
  where
    keep :
        (b : Bool)
        → IsKeyed n (expire_rows now minutes t)
        → IsKeyed n (
            if b
            then (j, record c { status = expired }) ∷ expire_rows now minutes t
            else (j, c) ∷ expire_rows now minutes t)
    keep true h = (lt, find-expire-none j now minutes t new, h)
    keep false h = (lt, find-expire-none j now minutes t new, h)
