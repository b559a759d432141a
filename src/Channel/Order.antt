-- ===== src/Channel/Order.antt =====
-- The order of the routes of internal/channel/router.go.
use gpt2api.Prelude.{
  ◌≡◌, refl, ◌∙◌, Bool, true, false, List, [], ◌∷◌, ◌++◌, arith, leb, not, if◌then◌else◌,
  Bool-cases, inl, inr,
}
use mathlib.Core.List.{append-nil, append_assoc}
use gpt2api.Prelude.Int.{ℤ, ltb_ℤ}
use gpt2api.Prelude.Sort.{
  All, All-map, All-append, Has, Has-append_left, Has-append_right, IsSorted,
}
use gpt2api.Channel.{healthy, unhealthy}
use gpt2api.Channel.Router.{Candidate, comes_before, Route, is_healthy, split_routes}

-- One key of an order, and the rest of it for equals.
abbrev lexed : ℤ → ℤ → Bool → Bool
lexed a b rest = if ltb_ℤ a b then true else if ltb_ℤ b a then false else rest

lexed_trans :
    (a b c : ℤ) (r s t : Bool)
    → (r ≡ true → s ≡ true → t ≡ true)
    → lexed a b r ≡ true
    → lexed b c s ≡ true
    → lexed a c t ≡ true
lexed_trans a b c r s t rest h k = ground arith

pub comes_before_total : (x y : Candidate) → comes_before x y ≡ false → comes_before y x ≡ true
comes_before_total x y h = ground arith

pub comes_before_trans :
    (x y z : Candidate)
    → comes_before x y ≡ true
    → comes_before y z ≡ true
    → comes_before x z ≡ true
comes_before_trans x y z h k =
    lexed_trans x.channel.priority y.channel.priority z.channel.priority (later x y) (later y z)
      (later x z)
      (λ h k.
        lexed_trans x.mapping.priority y.mapping.priority z.mapping.priority
          (leb x.mapping_id y.mapping_id) (leb y.mapping_id z.mapping_id)
          (leb x.mapping_id z.mapping_id) (λ h k. ground arith) h k)
      h k
  where
    later : Candidate → Candidate → Bool
    later a b = lexed a.mapping.priority b.mapping.priority (leb a.mapping_id b.mapping_id)

abbrev pub keep : {A : Type 0} → (A → Bool) → List A → List A
keep f [] = []
keep f (x ∷ xs) = if f x then x ∷ keep f xs else keep f xs

module _ {A : Type 0} (f : A → Bool) where
  keep_passed : (xs : List A) → All (λ x. f x ≡ true) (keep f xs)
  keep_passed [] = tt
  keep_passed (x ∷ xs) = elim (Bool-cases (f x)) [
    | inl e ↦ rw e (e, keep_passed xs)
    | inr e ↦ rw e (keep_passed xs)
  ]

  pub keep-All : (P : A → Type 0) (xs : List A) → All P xs → All P (keep f xs)
  keep-All P [] h = tt
  keep-All P (x ∷ xs) h = elim (Bool-cases (f x)) [
    | inl e ↦ rw e (h.0, keep-All P xs h.1)
    | inr e ↦ rw e (keep-All P xs h.1)
  ]

  pub keep-Has : (x : A) (xs : List A) → f x ≡ true → Has x xs → Has x (keep f xs)
  keep-Has x [] passed m = absurd m
  keep-Has x (y ∷ xs) passed (inl e) = rw (e, passed) (inl refl)
  keep-Has x (y ∷ xs) passed (inr m) = elim (Bool-cases (f y)) [
    | inl e ↦ rw e (inr (keep-Has x xs passed m))
    | inr e ↦ rw e (keep-Has x xs passed m)
  ]

  module _ (le : A → A → Bool) where
    pub keep-IsSorted : (xs : List A) → IsSorted le xs → IsSorted le (keep f xs)
    keep-IsSorted [] h = tt
    keep-IsSorted (x ∷ xs) h = elim (Bool-cases (f x)) [
      | inl e ↦ rw e (keep-All (λ y. le x y ≡ true) xs h.0, keep-IsSorted xs h.1)
      | inr e ↦ rw e (keep-IsSorted xs h.1)
    ]

-- Sorted lists one after the other, all of the first before all of the second.
append-IsSorted :
    {A : Type 0} (le : A → A → Bool) (xs ys : List A)
    → IsSorted le xs
    → IsSorted le ys
    → All (λ x. All (λ y. le x y ≡ true) ys) xs
    → IsSorted le (xs ++ ys)
append-IsSorted le [] ys h k apart = k
append-IsSorted le (x ∷ xs) ys h k apart =
    (All-append (λ y. le x y ≡ true) xs ys h.0 apart.0, append-IsSorted le xs ys h.1 k apart.1)

IsSorted-map :
    {A : Type 0} (P : A → Type 0) (le le' : A → A → Bool) (xs : List A)
    → ((x y : A) → P x → P y → le x y ≡ true → le' x y ≡ true)
    → All P xs
    → IsSorted le xs
    → IsSorted le' xs
IsSorted-map P le le' [] f h k = tt
IsSorted-map P le le' (x ∷ xs) f h k = (first xs h.1 k.0, IsSorted-map P le le' xs f h.1 k.1)
  where
    first : (ys : List _) → All P ys → All (λ y. le x y ≡ true) ys → All (λ y. le' x y ≡ true) ys
    first [] h k = tt
    first (y ∷ ys) g k = (f x y h.0 g.0 k.0, first ys g.1 k.1)

-- The second loop of `Resolve` puts the healthy routes first and keeps the order otherwise.
pub split_routes_lem :
    {Adapter : Type 0} (xs s t : List (Route Adapter))
    → split_routes xs s t ≡ (s ++ keep is_healthy xs) ++ (t ++ keep (λ x. not (is_healthy x)) xs)
unfolding split_routes
split_routes_lem [] s t = rw (append-nil s, append-nil t) refl
split_routes_lem (x ∷ xs) s t = elim (Bool-cases (is_healthy x)) [
  | inl e ↦
      rw e (
        split_routes_lem xs (s ++ x ∷ []) t
        ∙ rw (append_assoc s (x ∷ []) (keep is_healthy xs)) refl)
  | inr e ↦ rw e (
      split_routes_lem xs s (t ++ x ∷ [])
      ∙ rw (append_assoc t (x ∷ []) (keep (λ x. not (is_healthy x)) xs)) refl)
]

abbrev is_up : {Adapter : Type 0} → Route Adapter → Bool
is_up x = elim x.candidate.channel.status [ healthy ↦ true | unhealthy ↦ false ]

-- By the priority of the channel, then that of the mapping, then the mapping's key, from low to high.
abbrev ranks : Candidate → Candidate → Bool
ranks a b =
    lexed a.channel.priority b.channel.priority
      (lexed a.mapping.priority b.mapping.priority (leb a.mapping_id b.mapping_id))

-- Healthy channels first, and by rank among those of one health.
abbrev pub preferred : {Adapter : Type 0} → Route Adapter → Route Adapter → Bool
preferred x y =
    if is_up x
    then if is_up y then ranks x.candidate y.candidate else true
    else if is_up y
    then false
    else ranks x.candidate y.candidate

-- Routes are in the order of candidates.
abbrev pub of_candidates : {Adapter : Type 0} → Route Adapter → Route Adapter → Bool
of_candidates x y = comes_before x.candidate y.candidate

pub split_routes-IsSorted :
    {Adapter : Type 0} (xs : List (Route Adapter))
    → IsSorted of_candidates xs
    → IsSorted preferred (split_routes xs [] [])
split_routes-IsSorted {Adapter} xs h = rw (split_routes_lem xs [] []) (
    append-IsSorted preferred (keep is_healthy xs) (keep ill xs)
      (IsSorted-map (λ x. is_healthy x ≡ true) of_candidates preferred (keep is_healthy xs)
        (λ x y p q le. rw p (rw q le)) (keep_passed is_healthy xs)
        (keep-IsSorted is_healthy of_candidates xs h))
      (IsSorted-map (λ x. ill x ≡ true) of_candidates preferred (keep ill xs)
        (λ x y p q le. ground arith) (keep_passed ill xs) (keep-IsSorted ill of_candidates xs h))
      (All-map (λ x. is_healthy x ≡ true) (λ x. All (λ y. preferred x y ≡ true) (keep ill xs))
        (keep is_healthy xs)
        (λ x p.
          All-map (λ y. ill y ≡ true) (λ y. preferred x y ≡ true) (keep ill xs)
            (λ y q. ground arith) (keep_passed ill xs))
        (keep_passed is_healthy xs)))
  where
    ill : Route Adapter → Bool
    ill x = not (is_healthy x)

-- No route is lost.
pub split_routes-Has :
    {Adapter : Type 0} (x : Route Adapter) (xs : List (Route Adapter))
    → Has x xs
    → Has x (split_routes xs [] [])
split_routes-Has x xs m = rw (split_routes_lem xs [] []) (elim (Bool-cases (is_healthy x)) [
  | inl e ↦
      Has-append_left x (keep is_healthy xs) (keep (λ y. not (is_healthy y)) xs)
        (keep-Has is_healthy x xs e m)
  | inr e ↦
      Has-append_right x (keep is_healthy xs) (keep (λ y. not (is_healthy y)) xs)
        (keep-Has (λ y. not (is_healthy y)) x xs (rw e refl) m)
])
