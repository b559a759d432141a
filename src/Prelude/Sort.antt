-- ===== src/Prelude/Sort.antt =====
-- `ORDER BY`: insertion sort by a Boolean order, which is stable.
use gpt2api.Prelude.{
  ◌≡◌, ◌⊎◌, Bool, true, false, List, [], ◌∷◌, ◌++◌, if◌then◌else◌, Bool-cases, inl, inr, ℕ, zero,
  suc, take,
}

module _ {A : Type 0} where
  abbrev pub All : (A → Type 0) → List A → Type 0
  All P [] = Unit {0}
  All P (x ∷ xs) = P x × All P xs

  pub All-map : (P Q : A → Type 0) (xs : List A) → ((x : A) → P x → Q x) → All P xs → All Q xs
  All-map P Q [] f h = tt
  All-map P Q (x ∷ xs) f h = (f x h.0, All-map P Q xs f h.1)

  pub All-append : (P : A → Type 0) (xs ys : List A) → All P xs → All P ys → All P (xs ++ ys)
  All-append P [] ys h k = k
  All-append P (x ∷ xs) ys h k = (h.0, All-append P xs ys h.1 k)

  pub All-take : (P : A → Type 0) (n : ℕ) (xs : List A) → All P xs → All P (take n xs)
  All-take P zero xs h = tt
  All-take P (suc n) [] h = tt
  All-take P (suc n) (x ∷ xs) h = (h.0, All-take P n xs h.1)

  -- The element stands in the list.
  abbrev pub Has : A → List A → Type 0
  Has x [] = ⊥
  Has x (y ∷ ys) = (y ≡ x) ⊎ Has x ys

  pub All-Has : (P : A → Type 0) (x : A) (xs : List A) → All P xs → Has x xs → P x
  All-Has P x [] h m = absurd m
  All-Has P x (y ∷ ys) h (inl e) = rw (← e) h.0
  All-Has P x (y ∷ ys) h (inr m) = All-Has P x ys h.1 m

  pub Has-append_left : (x : A) (xs ys : List A) → Has x xs → Has x (xs ++ ys)
  Has-append_left x [] ys m = absurd m
  Has-append_left x (y ∷ xs) ys (inl e) = inl e
  Has-append_left x (y ∷ xs) ys (inr m) = inr (Has-append_left x xs ys m)

  pub Has-append_right : (x : A) (xs ys : List A) → Has x ys → Has x (xs ++ ys)
  Has-append_right x [] ys m = m
  Has-append_right x (y ∷ xs) ys m = inr (Has-append_right x xs ys m)

  module _ (le : A → A → Bool) where
    unfoldable pub insert_by : A → List A → List A
    insert_by x [] = x ∷ []
    insert_by x (y ∷ ys) = let rest = insert_by x ys in if le x y then x ∷ y ∷ ys else y ∷ rest

    unfoldable pub sort_by : List A → List A
    sort_by [] = []
    sort_by (x ∷ xs) = insert_by x (sort_by xs)

    pub insert_by-All :
        (P : A → Type 0) (x : A) (ys : List A) → P x → All P ys → All P (insert_by x ys)
    unfolding insert_by
    insert_by-All P x [] p h = (p, tt)
    insert_by-All P x (y ∷ ys) p h = elim (Bool-cases (le x y)) [
      | inl e ↦ rw e (p, h)
      | inr e ↦ rw e (h.0, insert_by-All P x ys p h.1)
    ]

    -- Sorting keeps what holds of every element.
    pub sort_by-All : (P : A → Type 0) (xs : List A) → All P xs → All P (sort_by xs)
    unfolding sort_by
    sort_by-All P [] h = tt
    sort_by-All P (x ∷ xs) h = insert_by-All P x (sort_by xs) h.0 (sort_by-All P xs h.1)

    insert_by-Has : (x r : A) (ys : List A) → (r ≡ x) ⊎ Has x ys → Has x (insert_by r ys)
    unfolding insert_by
    insert_by-Has x r [] m = m
    insert_by-Has x r (y ∷ ys) m = either (le r y) m (insert_by-Has x r ys)
      where
        later :
            (r ≡ x) ⊎ Has x (y ∷ ys)
            → ((r ≡ x) ⊎ Has x ys → Has x (insert_by r ys))
            → Has x (y ∷ insert_by r ys)
        later (inl e) go = inr (go (inl e))
        later (inr (inl e)) go = inl e
        later (inr (inr n)) go = inr (go (inr n))

        either :
            (b : Bool)
            → (r ≡ x) ⊎ Has x (y ∷ ys)
            → ((r ≡ x) ⊎ Has x ys → Has x (insert_by r ys))
            → Has x (if b then r ∷ y ∷ ys else y ∷ insert_by r ys)
        either true m go = m
        either false m go = later m go

    -- Sorting keeps every element.
    pub sort_by-Has : (x : A) (xs : List A) → Has x xs → Has x (sort_by xs)
    unfolding sort_by
    sort_by-Has x [] m = absurd m
    sort_by-Has x (y ∷ xs) (inl e) = insert_by-Has x y (sort_by xs) (inl e)
    sort_by-Has x (y ∷ xs) (inr m) = insert_by-Has x y (sort_by xs) (inr (sort_by-Has x xs m))

    -- Every element comes before all that follow it.
    abbrev pub IsSorted : List A → Type 0
    IsSorted [] = Unit {0}
    IsSorted (x ∷ xs) = All (λ y. le x y ≡ true) xs × IsSorted xs

    module _ (total : (x y : A) → le x y ≡ false → le y x ≡ true)
        (trans : (x y z : A) → le x y ≡ true → le y z ≡ true → le x z ≡ true) where
      insert_by-IsSorted : (x : A) (ys : List A) → IsSorted ys → IsSorted (insert_by x ys)
      unfolding insert_by
      insert_by-IsSorted x [] h = (tt, tt)
      insert_by-IsSorted x (y ∷ ys) h = elim (Bool-cases (le x y)) [
        | inl e ↦
            rw e (
              (e, All-map (λ z. le y z ≡ true) (λ z. le x z ≡ true) ys (λ z. trans x y z e) h.0),
              h,
            )
        | inr e ↦
            rw e (
              insert_by-All (λ z. le y z ≡ true) x ys (total x y e) h.0,
              insert_by-IsSorted x ys h.1,
            )
      ]

      pub sort_by-IsSorted : (xs : List A) → IsSorted (sort_by xs)
      unfolding sort_by
      sort_by-IsSorted [] = tt
      sort_by-IsSorted (x ∷ xs) = insert_by-IsSorted x (sort_by xs) (sort_by-IsSorted xs)
