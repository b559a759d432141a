-- ===== src/Channel/Router.antt =====
-- internal/channel/router.go, with its query in dao.go: the routes to a local model.
use gpt2api.Prelude.{
  ℕ, String, Bool, true, false, ◌&&◌, Option, none, some, List, [], ◌∷◌, ◌++◌, leb, not, str_eq,
  if◌then◌else◌,
}
use gpt2api.Prelude.Int.{ltb_ℤ}
use gpt2api.Prelude.Sort.{sort_by}
use gpt2api.Db.Table.{Table, find}
use gpt2api.Db.Action.{said, ok}
use gpt2api.Db.Call.{Call, pure, raise, ◌>>=◌, statement}
use gpt2api.Channel.{Channel, Mapping, Channels, healthy, unhealthy, get_channel, decrypt_key}

-- A mapping with its key and its channel, as `MappingWithChannel`.
pub record Candidate : Type 0 where
  pub mapping_id : ℕ
  pub mapping : Mapping
  pub channel : Channel

abbrev pub is_candidate : String → String → Mapping → Channel → Bool
is_candidate local_model modality m c =
    str_eq m.local_model local_model
    && (str_eq m.modality modality && (m.enabled && (c.enabled && not c.deleted)))

-- The rows of the JOIN that its WHERE accepts.
unfoldable pub joined : String → String → Table Channel → Table Mapping → List Candidate
joined local_model modality cs [] = []
joined local_model modality cs ((id, m) ∷ t) =
    let rest = joined local_model modality cs t in
    elim (find m.channel_id cs) [
      | none ↦ rest
      | some c ↦
          if is_candidate local_model modality m c
          then record { mapping_id = id; mapping = m; channel = c } ∷ rest
          else rest
    ]

-- `ORDER BY c.priority ASC, m.priority ASC, m.id ASC`
abbrev pub comes_before : Candidate → Candidate → Bool
comes_before a b =
    if ltb_ℤ a.channel.priority b.channel.priority
    then true
    else if ltb_ℤ b.channel.priority a.channel.priority
    then false
    else if ltb_ℤ a.mapping.priority b.mapping.priority
    then true
    else if ltb_ℤ b.mapping.priority a.mapping.priority
    then false
    else leb a.mapping_id b.mapping_id

-- `DAO.ResolveByLocalModel`
unfoldable pub resolve_by_local_model : String → String → Call Channels (List Candidate)
resolve_by_local_model local_model modality =
    statement λ d. ok (sort_by comes_before (joined local_model modality d.channels d.mappings), d)

pub record Route (Adapter : Type 0) : Type 0 where
  pub candidate : Candidate
  pub adapter : Adapter

module _ {Adapter : Type 0} where
  abbrev pub is_healthy : Route Adapter → Bool
  is_healthy x = elim x.candidate.channel.status [ healthy ↦ true | unhealthy ↦ false ]

  -- The second loop of `Resolve`, with `sorted` and `tail` as they are so far.
  unfoldable pub split_routes :
      List (Route Adapter) → List (Route Adapter) → List (Route Adapter) → List (Route Adapter)
  split_routes [] sorted tail = sorted ++ tail
  split_routes (x ∷ xs) sorted tail =
      split_routes xs (if is_healthy x then sorted ++ x ∷ [] else sorted)
        (if is_healthy x then tail else tail ++ x ∷ [])

module _ {Adapter : Type 0} (decrypt : String → Option String)
    (adapt : Channel → String → Option Adapter) where
  -- The body of the loop of `Resolve`: a channel whose key or adapter fails is skipped.
  abbrev pub route_of : Candidate → Option (Route Adapter)
  route_of r = elim (decrypt_key decrypt r.channel) [
    | none ↦ none
    | some key ↦ elim (adapt r.channel key) [
      | none ↦ none
      | some ad ↦ some (record { candidate = r; adapter = ad })
    ]
  ]

  unfoldable pub routes_of : List Candidate → List (Route Adapter)
  routes_of [] = []
  routes_of (r ∷ rs) =
      let rest = routes_of rs in elim (route_of r) [ none ↦ rest | some x ↦ x ∷ rest ]

  -- What `Resolve` does with the candidates.
  unfoldable pub choose_routes : List Candidate → Call Channels (List (Route Adapter))
  choose_routes rs = elim (routes_of rs) [
    | [] ↦ raise (said "channel: no route")
    | x ∷ xs ↦ pure (split_routes (x ∷ xs) [] [])
  ]

  -- `Router.Resolve`
  unfoldable pub resolve : String → String → Call Channels (List (Route Adapter))
  resolve local_model modality = resolve_by_local_model local_model modality >>= choose_routes

  -- `Router.BuildAdapter`, with the text of its errors left out.
  pub build_adapter : ℕ → Call Channels (Adapter × Channel)
  build_adapter id = do
    c ← get_channel id
    elim (decrypt_key decrypt c) [
      | none ↦ raise (said "decrypt key")
      | some key ↦ elim (adapt c key) [ none ↦ raise (said "adapter") | some ad ↦ pure (ad, c) ]
    ]
