-- ===== src/Db/Table.antt =====
-- A table as a list of rows keyed by their primary key.
use gpt2api.Prelude.{
  ℕ, ◌≡◌, refl, Bool, false, List, [], ◌∷◌, Option, none, some, arith, ◌==◌, if◌then◌else◌,
}

abbrev pub Table {ℓ} : Type ℓ → Type ℓ
Table A = List (ℕ × A)

module _ {ℓ} {A : Type ℓ} where
  -- WHERE id = ?
  unfoldable pub find : ℕ → Table A → Option A
  find k [] = none
  find k ((j, a) ∷ t) = if k == j then some a else find k t

  -- The row with key `k` is written anew.
  unfoldable pub replace : ℕ → A → Table A → Table A
  replace k a [] = []
  replace k a ((j, b) ∷ t) = if k == j then (j, a) ∷ t else (j, b) ∷ replace k a t

  -- The first row that a test on another column accepts, with its key.
  unfoldable pub find_where : (A → Bool) → Table A → Option (ℕ × A)
  find_where p [] = none
  find_where p ((j, a) ∷ t) = if p a then some (j, a) else find_where p t

  pub find-replace_self :
      (k : ℕ) (a b : A) (t : Table A) → find k t ≡ some b → find k (replace k a t) ≡ some a
  unfolding find replace
  find-replace_self k a b [] h = ground arith
  find-replace_self k a b ((j, c) ∷ t) h = ground (arith, find-replace_self k a b t)

  pub find-replace_ne :
      (i k : ℕ) (a : A) (t : Table A) → (i == k) ≡ false → find i (replace k a t) ≡ find i t
  unfolding find replace
  find-replace_ne i k a [] h = refl
  find-replace_ne i k a ((j, c) ∷ t) h = ground (arith, find-replace_ne i k a t h)
