-- ===== src/Db/Keys.antt =====
-- Tables whose primary keys are distinct and below the next AUTO_INCREMENT value.
use gpt2api.Prelude.{
  ℕ, ◌≤◌, ◌<◌, ◌≡◌, refl, Bool, true, false, [], ◌∷◌, none, some, arith, ◌==◌, if◌then◌else◌,
}
use gpt2api.Db.Table.{Table, find, replace, find_where}

module _ {ℓ} {A : Type ℓ} where
  abbrev pub IsKeyed : ℕ → Table A → Type ℓ
  IsKeyed n [] = Unit
  IsKeyed n ((j, a) ∷ t) = (j < n) × (find j t ≡ none) × IsKeyed n t

  pub find_fresh : (k n : ℕ) (t : Table A) → IsKeyed n t → n ≤ k → find k t ≡ none
  unfolding find
  find_fresh k n [] h le = refl
  find_fresh k n ((j, a) ∷ t) h le = ground (arith, find_fresh k n t h.2 le)

  pub IsKeyed-mono : (m n : ℕ) (t : Table A) → m ≤ n → IsKeyed m t → IsKeyed n t
  IsKeyed-mono m n [] le h = h
  IsKeyed-mono m n ((j, a) ∷ t) le h = (omega arith, h.1, IsKeyed-mono m n t le h.2)

  find-replace-none :
      (i k : ℕ) (a : A) (t : Table A) → find i t ≡ none → find i (replace k a t) ≡ none
  unfolding find replace
  find-replace-none i k a [] h = refl
  find-replace-none i k a ((j, b) ∷ t) h = ground (arith, find-replace-none i k a t)

  pub replace-IsKeyed :
      (k : ℕ) (a : A) (n : ℕ) (t : Table A) → IsKeyed n t → IsKeyed n (replace k a t)
  unfolding replace
  replace-IsKeyed k a n [] h = h
  replace-IsKeyed k a n ((j, b) ∷ t) (lt, new, rest) =
      if-IsKeyed (k == j) lt new (find-replace-none j k a t new) rest (replace-IsKeyed k a n t rest)
    where
      if-IsKeyed :
          (c : Bool)
          → j < n
          → find j t ≡ none
          → find j (replace k a t) ≡ none
          → IsKeyed n t
          → IsKeyed n (replace k a t)
          → IsKeyed n (if c then (j, a) ∷ t else (j, b) ∷ replace k a t)
      if-IsKeyed true l u v r s = (l, u, r)
      if-IsKeyed false l u v r s = (l, v, s)

  -- The row that a test on another column finds is the row of its key.
  pub find_where-find :
      (p : A → Bool) (k n : ℕ) (a : A) (t : Table A)
      → IsKeyed n t
      → find_where p t ≡ some (k, a)
      → find k t ≡ some a
  unfolding find_where find
  find_where-find p k n a [] h e = ground arith
  find_where-find p k n a ((j, b) ∷ t) h e = ground (arith, find_where-find p k n a t h.2)

  pub find_where_test :
      (p : A → Bool) (k : ℕ) (a : A) (t : Table A) → find_where p t ≡ some (k, a) → p a ≡ true
  unfolding find_where
  find_where_test p k a [] e = ground arith
  find_where_test p k a ((j, b) ∷ t) e = ground (arith, find_where_test p k a t)

  -- A row that is written anew and still passes the test is found again.
  pub find_where-replace_self :
      (p : A → Bool) (k n : ℕ) (a b : A) (t : Table A)
      → IsKeyed n t
      → find_where p t ≡ some (k, a)
      → p b ≡ true
      → find_where p (replace k b t) ≡ some (k, b)
  unfolding find_where replace find
  find_where-replace_self p k n a b [] h e q = ground arith
  find_where-replace_self p k n a b ((j, c) ∷ t) h e q =
      ground (arith, find_where-replace_self p k n a b t h.2, find_where-find p k n a t h.2)

  -- A test that neither the old nor the new row passes does not see the write.
  pub find_where-replace_other :
      (p : A → Bool) (k : ℕ) (a b : A) (t : Table A)
      → find k t ≡ some a
      → p a ≡ false
      → p b ≡ false
      → find_where p (replace k b t) ≡ find_where p t
  unfolding find_where replace find
  find_where-replace_other p k a b [] e h q = refl
  find_where-replace_other p k a b ((j, c) ∷ t) e h q =
      ground (arith, find_where-replace_other p k a b t)
