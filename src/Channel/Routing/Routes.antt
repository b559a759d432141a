-- ===== src/Channel/Routing/Routes.antt =====
-- The routes that Resolve of internal/channel/router.go makes of candidates.
use gpt2api.Prelude.{
  ap, ◌⊎◌, ◌≡◌, refl, ◌∙◌, String, true, false, Option, none, some, List, [], ◌∷◌, arith, str_eq,
  Bool-cases, inl, inr,
}
use gpt2api.Prelude.Sort.{All, All-map, Has, IsSorted}
use gpt2api.Channel.{Channel, Channels, decrypt_key}
use gpt2api.Channel.Router.{Candidate, comes_before, Route, route_of, routes_of}
use gpt2api.Channel.Order.{of_candidates}
use gpt2api.Channel.Routing.Candidates.{IsServed}

module _ {Adapter : Type 0} (decrypt : String → Option String)
    (adapt : Channel → String → Option Adapter) where
  -- A route is that of its candidate.
  route_of-candidate :
      (r : Candidate) (x : Route Adapter) → route_of decrypt adapt r ≡ some x → x.candidate ≡ r
  route_of-candidate r x e = onto (decrypt_key decrypt r.channel) e
    where
      adapted :
          (o : Option Adapter)
          → elim o as (λ _. Option (Route Adapter)) [
            | none ↦ none
            | some ad ↦ some (record { candidate = r; adapter = ad })
          ]
            ≡ some x
          → x.candidate ≡ r
      adapted none e = absurd (ground arith)
      adapted (some ad) e =
          let same : record { candidate = r; adapter = ad } ≡ x = ground arith in rw (← same) refl

      onto :
          (k : Option String)
          → elim k as (λ _. Option (Route Adapter)) [
            | none ↦ none
            | some key ↦ elim (adapt r.channel key) [
              | none ↦ none
              | some ad ↦ some (record { candidate = r; adapter = ad })
            ]
          ]
            ≡ some x
          → x.candidate ≡ r
      onto none e = absurd (ground arith)
      onto (some key) e = adapted (adapt r.channel key) e

  pub routes_of-All :
      (P : Candidate → Type 0) (rs : List Candidate)
      → All P rs
      → All
          (λ (x : Route Adapter). P x.candidate × (route_of decrypt adapt x.candidate ≡ some x))
          (routes_of decrypt adapt rs)
  unfolding routes_of
  routes_of-All P [] h = tt
  routes_of-All P (r ∷ rs) h = go (route_of decrypt adapt r) refl (routes_of-All P rs h.1)
    where
      go :
          (o : Option (Route Adapter))
          → route_of decrypt adapt r ≡ o
          → All
              (λ (x : Route Adapter). P x.candidate × (route_of decrypt adapt x.candidate ≡ some x))
              (routes_of decrypt adapt rs)
          → All
              (λ (x : Route Adapter). P x.candidate × (route_of decrypt adapt x.candidate ≡ some x))
              (elim o [
                | none ↦ routes_of decrypt adapt rs
                | some x ↦ x ∷ routes_of decrypt adapt rs
              ])
      go none e rest = rest
      go (some x) e rest =
          let same : x.candidate ≡ r = route_of-candidate r x e in
          ((rw same h.0, ap (route_of decrypt adapt) same ∙ e), rest)

  pub routes_of-IsSorted :
      (rs : List Candidate)
      → IsSorted comes_before rs
      → IsSorted of_candidates (routes_of decrypt adapt rs)
  unfolding routes_of
  routes_of-IsSorted [] h = tt
  routes_of-IsSorted (r ∷ rs) h =
      go (route_of decrypt adapt r) refl (routes_of-IsSorted rs h.1)
        (routes_of-All (λ c. comes_before r c ≡ true) rs h.0)
    where
      go :
          (o : Option (Route Adapter))
          → route_of decrypt adapt r ≡ o
          → IsSorted of_candidates (routes_of decrypt adapt rs)
          → All
              (λ (x : Route Adapter).
                (comes_before r x.candidate ≡ true) × (route_of decrypt adapt x.candidate ≡ some x))
              (routes_of decrypt adapt rs)
          → IsSorted of_candidates (elim o [
            | none ↦ routes_of decrypt adapt rs
            | some x ↦ x ∷ routes_of decrypt adapt rs
          ])
      go none e rest later = rest
      go (some x) e rest later = (
        All-map
            (λ (y : Route Adapter).
              (comes_before r y.candidate ≡ true) × (route_of decrypt adapt y.candidate ≡ some y))
            (λ y. of_candidates x y ≡ true) (routes_of decrypt adapt rs)
            (λ y k. rw (route_of-candidate r x e) k.0) later,
        rest,
      )

  -- The plain key of a channel; one that is stored empty is empty.
  abbrev pub HasKey : Channel → String → Type 0
  HasKey c key =
      (str_eq c.api_key_enc "" ≡ true × (key ≡ ""))
      ⊎ (str_eq c.api_key_enc "" ≡ false × (decrypt c.api_key_enc ≡ some key))

  -- The route is to a served candidate, with the adapter that is built of the channel's key.
  pub record Serves (local_model modality : String) (d : Channels) (x : Route Adapter)
      : Type 0 where
    pub served : IsServed local_model modality d x.candidate
    pub key : String
    pub own_key : HasKey x.candidate.channel key
    pub built : adapt x.candidate.channel key ≡ some x.adapter

  key-HasKey : (c : Channel) (key : String) → decrypt_key decrypt c ≡ some key → HasKey c key
  unfolding decrypt_key
  key-HasKey c key e = elim (Bool-cases (str_eq c.api_key_enc "")) [
    | inl b ↦ inl (b, ground (arith, e, b))
    | inr b ↦ inr (b, ground (arith, e, b))
  ]

  HasKey-key : (c : Channel) (key : String) → HasKey c key → decrypt_key decrypt c ≡ some key
  unfolding decrypt_key
  HasKey-key c key (inl (b, e)) = rw (b, e) refl
  HasKey-key c key (inr (b, e)) = rw (b, e) refl

  pub route_of-Serves :
      (local_model modality : String) (d : Channels) (x : Route Adapter)
      → IsServed local_model modality d x.candidate
      → route_of decrypt adapt x.candidate ≡ some x
      → Serves local_model modality d x
  route_of-Serves local_model modality d x served e =
      onto (decrypt_key decrypt x.candidate.channel) refl e
    where
      adapted :
          (key : String)
          → decrypt_key decrypt x.candidate.channel ≡ some key
          → (o : Option Adapter) → adapt x.candidate.channel key ≡ o
          → (elim o as (λ _. Option (Route Adapter)) [
            | none ↦ none
            | some ad ↦ some (record { candidate = x.candidate; adapter = ad })
          ])
            ≡ some x
          → Serves local_model modality d x
      adapted key k none same e = absurd (ground (arith, e))
      adapted key k (some ad) same e =
          let own : record { candidate = x.candidate; adapter = ad } ≡ x = ground (arith, e) in
          record {
            served = served;
            key = key;
            own_key = key-HasKey x.candidate.channel key k;
            built = same ∙ ap (λ (y : Route Adapter). some y.adapter) own;
          }

      onto :
          (k : Option String)
          → decrypt_key decrypt x.candidate.channel ≡ k
          → (elim k as (λ _. Option (Route Adapter)) [
            | none ↦ none
            | some key ↦ elim (adapt x.candidate.channel key) [
              | none ↦ none
              | some ad ↦ some (record { candidate = x.candidate; adapter = ad })
            ]
          ])
            ≡ some x
          → Serves local_model modality d x
      onto none k e = absurd (ground (arith, e))
      onto (some key) k e = adapted key k (adapt x.candidate.channel key) refl e

  pub Serves-route_of :
      (local_model modality : String) (d : Channels) (x : Route Adapter)
      → Serves local_model modality d x
      → route_of decrypt adapt x.candidate ≡ some x
  Serves-route_of local_model modality d x s =
      rw (HasKey-key x.candidate.channel s.key s.own_key, route_of) (rw s.built refl)

  pub routes_of-Has :
      (x : Route Adapter) (rs : List Candidate)
      → Has x.candidate rs
      → route_of decrypt adapt x.candidate ≡ some x
      → Has x (routes_of decrypt adapt rs)
  unfolding routes_of
  routes_of-Has x [] m e = absurd m
  routes_of-Has x (r ∷ rs) (inl same) e = found (route_of decrypt adapt r) (rw same e)
    where
      found :
          (o : Option (Route Adapter))
          → o ≡ some x
          → Has x (elim o [
            | none ↦ routes_of decrypt adapt rs
            | some y ↦ y ∷ routes_of decrypt adapt rs
          ])
      found none f = absurd (ground (arith, f))
      found (some y) f = inl (ground (arith, f))
  routes_of-Has x (r ∷ rs) (inr m) e = go (route_of decrypt adapt r) (routes_of-Has x rs m e)
    where
      go :
          (o : Option (Route Adapter))
          → Has x (routes_of decrypt adapt rs)
          → Has x (elim o [
            | none ↦ routes_of decrypt adapt rs
            | some y ↦ y ∷ routes_of decrypt adapt rs
          ])
      go none h = h
      go (some y) h = inr h
