-- ===== src/Channel/Routing/Candidates.antt =====
-- What the query behind Resolve of internal/channel/router.go selects.
use gpt2api.Prelude.{
  ◌≡◌, refl, ap, String, Bool, true, false, Option, none, some, [], ◌∷◌, arith, str_eq,
  if◌then◌else◌, Bool-cases, inl, inr,
}
use gpt2api.Prelude.Sort.{All, All-map, Has}
use gpt2api.Db.Table.{Table, find}
use gpt2api.Channel.{Channel, Mapping, Channels}
use gpt2api.Channel.Router.{Candidate, is_candidate, joined}

-- A candidate is an enabled mapping of the model and modality, with its live and enabled channel.
pub record IsServed (local_model modality : String) (d : Channels) (r : Candidate) : Type 0 where
  pub stored : Has (r.mapping_id, r.mapping) d.mappings
  pub of_mapping : find r.mapping.channel_id d.channels ≡ some r.channel
  pub of_model : str_eq r.mapping.local_model local_model ≡ true
  pub of_modality : str_eq r.mapping.modality modality ≡ true
  pub mapping_on : r.mapping.enabled ≡ true
  pub channel_on : r.channel.enabled ≡ true
  pub live : r.channel.deleted ≡ false

module _ (local_model modality : String) (d : Channels) where
  abbrev Accepted : Table Mapping → Candidate → Type 0
  Accepted t r =
      Has (r.mapping_id, r.mapping) t
      × (find r.mapping.channel_id d.channels ≡ some r.channel)
      × (is_candidate local_model modality r.mapping r.channel ≡ true)

  joined-Accepted :
      (t : Table Mapping) → All (Accepted t) (joined local_model modality d.channels t)
  unfolding joined
  joined-Accepted [] = tt
  joined-Accepted ((id, m) ∷ t) = go (find m.channel_id d.channels) refl (
      All-map (Accepted t) (Accepted ((id, m) ∷ t)) (joined local_model modality d.channels t)
        (λ r h. (inr h.0, h.1, h.2)) (joined-Accepted t))
    where
      go :
          (o : Option Channel)
          → find m.channel_id d.channels ≡ o
          → All (Accepted ((id, m) ∷ t)) (joined local_model modality d.channels t)
          → All (Accepted ((id, m) ∷ t)) (elim o [
            | none ↦ joined local_model modality d.channels t
            | some c ↦
                if is_candidate local_model modality m c
                then record { mapping_id = id; mapping = m; channel = c }
                  ∷ joined local_model modality d.channels t
                else joined local_model modality d.channels t
          ])
      go none e rest = rest
      go (some c) e rest = elim (Bool-cases (is_candidate local_model modality m c)) [
        | inl f ↦ rw f ((inl refl, e, f), rest)
        | inr f ↦ rw f rest
      ]

  pub joined-All :
      All (IsServed local_model modality d) (joined local_model modality d.channels d.mappings)
  joined-All =
      All-map (Accepted d.mappings) (IsServed local_model modality d)
        (joined local_model modality d.channels d.mappings)
        (λ r h. record {
          stored = h.0;
          of_mapping = h.1;
          of_model = ground (arith, h.2);
          of_modality = ground (arith, h.2);
          mapping_on = ground (arith, h.2);
          channel_on = ground (arith, h.2);
          live = ground (arith, h.2);
        })
        (joined-Accepted d.mappings)

  Accepted-Has :
      (r : Candidate) (t : Table Mapping)
      → Accepted t r
      → Has r (joined local_model modality d.channels t)
  unfolding joined
  Accepted-Has r [] (m, found, accepted) = absurd m
  Accepted-Has r ((id, m) ∷ t) (inl same, found, accepted) =
      let own_id : id ≡ r.mapping_id = ap (λ x. x.0) same in
      let own : m ≡ r.mapping = ap (λ x. x.1) same in
      onto (find m.channel_id d.channels) (rw own found) (rw (own_id, own) refl) (rw own accepted)
    where
      chosen :
          (b : Bool)
          → b ≡ true
          → (record { mapping_id = id; mapping = m; channel = r.channel }) ≡ r
          → Has r (
              if b
              then record { mapping_id = id; mapping = m; channel = r.channel }
                ∷ joined local_model modality d.channels t
              else joined local_model modality d.channels t)
      chosen true accepts own = inl own
      chosen false accepts own = absurd (ground (arith, accepts))

      onto :
          (o : Option Channel)
          → o ≡ some r.channel
          → (record { mapping_id = id; mapping = m; channel = r.channel }) ≡ r
          → is_candidate local_model modality m r.channel ≡ true
          → Has r (elim o [
            | none ↦ joined local_model modality d.channels t
            | some c ↦
                if is_candidate local_model modality m c
                then record { mapping_id = id; mapping = m; channel = c }
                  ∷ joined local_model modality d.channels t
                else joined local_model modality d.channels t
          ])
      onto none e own accepts = absurd (ground (arith, e))
      onto (some c) e own accepts =
          let same : c ≡ r.channel = ground (arith, e) in rw same (chosen _ accepts own)
  Accepted-Has r ((id, m) ∷ t) (inr later, found, accepted) =
      go (find m.channel_id d.channels) (Accepted-Has r t (later, found, accepted))
    where
      go :
          (o : Option Channel)
          → Has r (joined local_model modality d.channels t)
          → Has r (elim o [
            | none ↦ joined local_model modality d.channels t
            | some c ↦
                if is_candidate local_model modality m c
                then record { mapping_id = id; mapping = m; channel = c }
                  ∷ joined local_model modality d.channels t
                else joined local_model modality d.channels t
          ])
      go none h = h
      go (some c) h = elim (Bool-cases (is_candidate local_model modality m c)) [
        | inl f ↦ rw f (inr h)
        | inr f ↦ rw f h
      ]

  pub joined-Has :
      (r : Candidate)
      → IsServed local_model modality d r
      → Has r (joined local_model modality d.channels d.mappings)
  joined-Has r s = Accepted-Has r d.mappings (
    s.stored,
    s.of_mapping,
    rw (s.of_model, s.of_modality, s.mapping_on, s.channel_on, s.live) refl,
  )
