-- ===== src/Recharge/Steps.antt =====
-- What every call of internal/recharge does to the orders and the ledger: a database follows
-- another.
use gpt2api.Prelude.{ℕ, ◌≡◌, refl, ◌∙◌, false, some, arith, ◌==◌, Bool-cases, inl, inr}
use gpt2api.Prelude.Int.{ℤ, pos, ◌+ℤ◌, ◌≤ℤ◌}
use gpt2api.Db.Table.{Table, find, find-replace_self, find-replace_ne, replace}
use gpt2api.Db.Keys.{IsKeyed}
use gpt2api.Db.Rows.{Database, Order}
use gpt2api.Billing.Account.{ledger}
use gpt2api.Recharge.{is_pending}
use gpt2api.Recharge.Owed.{owed}

-- The order keeps its buyer, its price and its credits, and once it is not pending it keeps
-- everything.
pub record Advances (o o' : Order) : Type 0 where
  pub same_user : o'.user_id ≡ o.user_id
  pub same_price : o'.price_cny ≡ o.price_cny
  pub same_credits : o'.credits ≡ o.credits
  pub same_bonus : o'.bonus ≡ o.bonus
  pub is_final : is_pending o.status ≡ false → o' ≡ o

abbrev pub Keyed : Database → Type 0
Keyed d = IsKeyed d.next_order d.orders

-- What user `k` has been credited and is still owed.
abbrev pub claim_of : ℕ → Database → ℤ
claim_of k d = ledger k d +ℤ pos (owed k d.orders)

-- No order is lost or goes back, and nobody's claim grows.
pub record Follows (d d' : Database) : Type 0 where
  pub keyed : Keyed d'
  pub orders :
      (id : ℕ) (o : Order)
      → find id d.orders ≡ some o
      → (o' : Order) × (find id d'.orders ≡ some o') × Advances o o'
  pub fair : (k : ℕ) → claim_of k d' ≤ℤ claim_of k d

pub Advances-refl : (o : Order) → Advances o o
Advances-refl o = record {
  same_user = refl;
  same_price = refl;
  same_credits = refl;
  same_bonus = refl;
  is_final = λ _. refl;
}

Advances-trans : (a b c : Order) → Advances a b → Advances b c → Advances a c
Advances-trans a b c p q = record {
  same_user = q.same_user ∙ p.same_user;
  same_price = q.same_price ∙ p.same_price;
  same_credits = q.same_credits ∙ p.same_credits;
  same_bonus = q.same_bonus ∙ p.same_bonus;
  is_final = λ h. q.is_final (rw (p.is_final h) h) ∙ p.is_final h;
}

pub Follows-refl : (d : Database) → Keyed d → Follows d d
Follows-refl d keyed = record {
  keyed = keyed;
  orders = λ id o found. (o, found, Advances-refl o);
  fair = λ k. omega arith;
}

pub Follows-trans : (a b c : Database) → Follows a b → Follows b c → Follows a c
Follows-trans a b c p q = record {
  keyed = q.keyed;
  orders = λ id o found.
      let (x, at, step) = p.orders id o found in
      let (y, at', step') = q.orders id x at in (y, at', Advances-trans o x y step step');
  fair = λ k. omega (arith, p.fair k, q.fair k);
}

-- Writing one row that advances moves every order on.
pub replace-Advances :
    (id : ℕ) (o o' : Order) (t : Table Order)
    → find id t ≡ some o
    → Advances o o'
    → (j : ℕ) (x : Order) → find j t ≡ some x
    → (y : Order) × (find j (replace id o' t) ≡ some y) × Advances x y
replace-Advances id o o' t found step j x at = elim (Bool-cases (j == id)) [
  | inl e ↦
      let same : j ≡ id = ground arith in
      (o', rw same (find-replace_self id o' o t found), rw (row same) step)
  | inr ne ↦ (x, find-replace_ne j id o' t ne ∙ at, Advances-refl x)
]
  where
    row : j ≡ id → x ≡ o
    row same = ground arith
