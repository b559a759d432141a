-- ===== src/Channel/Routing.antt =====
-- The routes that Resolve of internal/channel/router.go returns, and their order.
pub mod Candidates
pub mod Routes
use gpt2api.Prelude.{
  ◌+◌, ap, ◌⊎◌, ◌≡◌, refl, ◌∙◌, String, Bool, true, false, Option, none, some, List, [], ◌∷◌, ◌++◌,
  arith, not, str_eq, if◌then◌else◌, Bool-cases, inl, inr,
}
use gpt2api.Prelude.Sort.{
  All, All-map, All-append, Has, All-Has, sort_by, sort_by-All, sort_by-Has, IsSorted,
  sort_by-IsSorted,
}
use gpt2api.Db.Table.{find}
use gpt2api.Db.Action.{said, driver, Result, ok, err}
use gpt2api.Db.Call.{Server, Call, pure, raise, statement}
use gpt2api.Channel.{Channel, Channels, decrypt_key}
use gpt2api.Channel.Router.{
  Candidate, joined, comes_before, resolve_by_local_model, Route, route_of, routes_of, is_healthy,
  split_routes, choose_routes, resolve,
}
use gpt2api.Channel.Order.{
  comes_before_total, comes_before_trans, keep, keep-All, of_candidates, preferred,
  split_routes_lem, split_routes-IsSorted, split_routes-Has,
}
use gpt2api.Channel.Routing.Candidates.{IsServed, joined-All, joined-Has}
use gpt2api.Channel.Routing.Routes.{
  Serves, routes_of-All, routes_of-IsSorted, route_of-Serves, Serves-route_of, routes_of-Has,
}

module _ {Adapter : Type 0} (decrypt : String → Option String)
    (adapt : Channel → String → Option Adapter) where
  -- What the first loop of `Resolve` makes of a state of the tables.
  abbrev usable : String → String → Channels → List (Route Adapter)
  usable local_model modality d =
      routes_of decrypt adapt
        (sort_by comes_before (joined local_model modality d.channels d.mappings))

  usable-Has :
      (local_model modality : String) (d : Channels) (x : Route Adapter)
      → Serves decrypt adapt local_model modality d x
      → Has x (usable local_model modality d)
  usable-Has local_model modality d x s =
      routes_of-Has decrypt adapt x
        (sort_by comes_before (joined local_model modality d.channels d.mappings))
        (sort_by-Has comes_before x.candidate (joined local_model modality d.channels d.mappings)
          (joined-Has local_model modality d x.candidate s.served))
        (Serves-route_of decrypt adapt local_model modality d x s)

  usable-All :
      (local_model modality : String) (d : Channels)
      → All (Serves decrypt adapt local_model modality d) (usable local_model modality d)
  usable-All local_model modality d =
      All-map
        (λ (x : Route Adapter).
          IsServed local_model modality d x.candidate
          × (route_of decrypt adapt x.candidate ≡ some x))
        (Serves decrypt adapt local_model modality d) (usable local_model modality d)
        (λ x h. route_of-Serves decrypt adapt local_model modality d x h.0 h.1)
        (routes_of-All decrypt adapt (IsServed local_model modality d)
          (sort_by comes_before (joined local_model modality d.channels d.mappings))
          (sort_by-All comes_before (IsServed local_model modality d)
            (joined local_model modality d.channels d.mappings)
            (joined-All local_model modality d)))

  -- The routes are those that serve, in the order of preference.
  pub record Resolved (local_model modality : String) (d : Channels) (rs : List (Route Adapter))
      : Type 0 where
    pub sound : (x : Route Adapter) → Has x rs → Serves decrypt adapt local_model modality d x
    pub complete : (x : Route Adapter) → Serves decrypt adapt local_model modality d x → Has x rs
    pub in_order : IsSorted preferred rs

  chosen-Resolved :
      (local_model modality : String) (d : Channels)
      → Resolved local_model modality d (split_routes (usable local_model modality d) [] [])
  chosen-Resolved local_model modality d = record {
    sound = λ x m.
        All-Has (Serves decrypt adapt local_model modality d) x (split_routes all [] []) good m;
    complete = λ x s. split_routes-Has x all (usable-Has local_model modality d x s);
    in_order = split_routes-IsSorted all (
        routes_of-IsSorted decrypt adapt (sort_by comes_before found)
          (sort_by-IsSorted comes_before comes_before_total comes_before_trans found));
  }
    where
      found : List Candidate
      found = joined local_model modality d.channels d.mappings

      all : List (Route Adapter)
      all = usable local_model modality d

      good : All (Serves decrypt adapt local_model modality d) (split_routes all [] [])
      good = rw (split_routes_lem all [] []) (
          All-append (Serves decrypt adapt local_model modality d) (keep is_healthy all)
            (keep (λ x. not (is_healthy x)) all)
            (keep-All is_healthy (Serves decrypt adapt local_model modality d) all
              (usable-All local_model modality d))
            (keep-All (λ x. not (is_healthy x)) (Serves decrypt adapt local_model modality d) all
              (usable-All local_model modality d)))

  -- The end of `Resolve`, on each branch.
  abbrev pub Answers :
      String → String → Server Channels → Result (List (Route Adapter)) × Server Channels → Type 0
  Answers local_model modality s (ok rs, t) =
      Resolved local_model modality s.state rs × (t.state ≡ s.state)
  Answers local_model modality s (err e, t) =
      (t.state ≡ s.state)
      × ((s.faulty s.turn ≡ true)
          ⊎ ((x : Route Adapter) → ¬ Serves decrypt adapt local_model modality s.state x))

  no_Has : (x : Route Adapter) (rs : List (Route Adapter)) → rs ≡ [] → ¬ Has x rs
  no_Has x [] e m = m
  no_Has x (r ∷ rs) e m = absurd (ground (arith, e))

  -- Resolve changes nothing. Where it succeeds, it returns a route if and only if the route is of an
  -- enabled mapping of the model and modality in the table, to its channel, which is live and enabled,
  -- with the adapter that is built of the channel's key; the routes to healthy channels come first,
  -- and among those of one health the order is that of channel priority, mapping priority and mapping
  -- key. It fails only if the driver fails or there is no such route.
  pub resolve-Answers :
      (local_model modality : String) (s : Server Channels)
      → Answers local_model modality s (resolve decrypt adapt local_model modality s)
  unfolding resolve resolve_by_local_model statement choose_routes
  resolve-Answers local_model modality s = onto (s.faulty s.turn) refl
    where
      after : Server Channels
      after = record s { turn = s.turn + 1 }

      go :
          (us : List (Route Adapter))
          → usable local_model modality s.state ≡ us
          → Resolved local_model modality s.state
              (split_routes (usable local_model modality s.state) [] [])
          → Answers local_model modality s (
              (elim us as (λ _. Call Channels (List (Route Adapter))) [
                | [] ↦ raise (said "channel: no route")
                | x ∷ xs ↦ pure (split_routes (x ∷ xs) [] [])
              ])
                after)
      go [] e h = (
        refl,
        inr λ x v.
            no_Has x (usable local_model modality s.state) e
              (usable-Has local_model modality s.state x v),
      )
      go (x ∷ xs) e h = (rw (← e) h, refl)

      found : Result (List Candidate × Channels)
      found = ok (
        sort_by comes_before (joined local_model modality s.state.channels s.state.mappings),
        s.state,
      )

      read : Bool → Result (List Candidate) × Server Channels
      read b = if b then (err driver, after) else elim found [
        | ok (a, d) ↦ (ok a, record s { state = d; turn = s.turn + 1 })
        | err e ↦ (err e, after)
      ]

      onto :
          (b : Bool)
          → s.faulty s.turn ≡ b
          → Answers local_model modality s (elim (read b).0 [
            | ok rs ↦ choose_routes decrypt adapt rs (read b).1
            | err e ↦ (err e, (read b).1)
          ])
      onto true f = (refl, inl f)
      onto false f =
          go (usable local_model modality s.state) refl
            (chosen-Resolved local_model modality s.state)
