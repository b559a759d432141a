-- ===== src/ApiKey/History.antt =====
-- Any sequence of calls of internal/apikey that make, delete or use keys.
use gpt2api.Prelude.{
  ℕ, ◌+◌, ◌≤◌, ◌≡◌, refl, String, true, false, Option, some, List, [], ◌∷◌, arith, ◌==◌, eq_iff,
  if◌then◌else◌, Bool-cases, Option-cases, ◌⊎◌, inl, inr,
}
use gpt2api.Prelude.Int.{ℤ, pos, ◌+ℤ◌}
use gpt2api.Prelude.Text.{starts_with}
use gpt2api.Db.Table.{find, replace}
use gpt2api.Db.Action.{no_rows, Result, ok, err}
use gpt2api.Db.Call.{Server, pure, ◌>>=◌, Gives, statement-Gives, Gives-bind, Gives-map}
use gpt2api.ApiKey.{
  ApiKey, Keys, internal_name, insert_key, is_visible, count_visible, get_by_user_and_name,
  soft_delete, touch_usage, CreateInput, KeySettings, generate_secret, new_key, create_key,
  playground_key, insert_internal, after_lookup, ensure_internal_key,
}
use gpt2api.ApiKey.Cap.{
  with_row, Inserted, insert_key-Inserted, HasRoom, Created, made-new_key, create_key-Created,
  secret-Gives, count-replace,
}

-- The calls other than `Update`, which may give the internal key a visible name.
pub data Change : Type 0 where
  creating : Option String → ℕ → CreateInput → Change
  ensuring : Option String → ℕ → Change
  deleting : ℕ → ℕ → Change
  touching : ℕ → ℕ → String → ℤ → Change

module _ (hash : String → String) (encode : List String → String) (settings : KeySettings) where
  pub apply : Change → Server Keys → Server Keys
  apply (creating drawn user_id i) s = (create_key hash encode (some settings) drawn user_id i s).1
  apply (ensuring drawn user_id) s = (ensure_internal_key hash encode drawn user_id s).1
  apply (deleting user_id id) s = (soft_delete user_id id s).1
  apply (touching now id ip add_used) s = (touch_usage now id ip add_used s).1

  pub run : List Change → Server Keys → Server Keys
  run [] s = s
  run (c ∷ cs) s = run cs (apply c s)

  module _ (user_id max : ℕ) (limit : settings.max_per_user ≡ pos max) (positive : 1 ≤ max) where
    abbrev InCap : Keys → Type 0
    InCap d = count_visible user_id d.rows ≤ max

    -- A call that is all or nothing keeps the cap if its success does.
    kept :
        {A : Type 0} (d : Keys) (P : A → Keys → Type 0) (r : Result A × Server Keys)
        → InCap d
        → ((a : A) (d' : Keys) → P a d' → InCap d')
        → Gives d P r
        → InCap (r.1).state
    kept d P (ok a, s) h step g = step a s.state g
    kept d P (err e, s) h step g = rw g h

    count-with_row :
        (d : Keys) (k : ApiKey)
        → count_visible user_id (with_row d k).rows ≡ (
            if is_visible user_id k
            then count_visible user_id d.rows + 1
            else count_visible user_id d.rows)
    unfolding count_visible
    count-with_row d k = refl

    room_left : (n : ℕ) → HasRoom (some settings) user_id n → n + 1 ≤ max
    room_left n h = ground (arith, h (rw limit (ground arith)))

    create_key-InCap :
        (owner : ℕ) (i : CreateInput) (d : Keys) (r : String × ℕ × ApiKey) (d' : Keys)
        → InCap d
        → Created hash encode (some settings) owner i d r d'
        → InCap d'
    create_key-InCap owner i d r d' h c =
        rw (c.inserted.stored, count-with_row d (r.2))
          (elim (Bool-cases (is_visible user_id (r.2))) [
            | inr hidden ↦ rw hidden h
            | inl seen ↦
                rw seen
                  (room_left (count_visible user_id d.rows) (room_of (owns (rw is_new at seen))))
          ])
      where
        is_new : r.2 ≡ new_key hash encode (some settings) owner i r.0
        is_new = made-new_key hash encode (some settings) owner i d r d' c

        owns :
            is_visible user_id (new_key hash encode (some settings) owner i r.0) ≡ true
            → owner ≡ user_id
        owns seen = ground arith

        room_of : owner ≡ user_id → HasRoom (some settings) user_id (count_visible user_id d.rows)
        room_of e = rw (← e) c.room

    inserted-InCap :
        (d : Keys) (k : ApiKey) (id : ℕ) (d' : Keys)
        → is_visible user_id k ≡ false
        → InCap d
        → Inserted d k id d'
        → InCap d'
    inserted-InCap d k id d' hidden h q = rw (q.stored, count-with_row d k, hidden) h

    playground_hidden :
        (owner : ℕ) (key : String)
        → is_visible user_id (playground_key hash encode owner key) ≡ false
    playground_hidden owner key = ground (arith, eq_iff internal_name internal_name)

    insert_internal-InCap :
        (drawn : Option String) (owner : ℕ) (s : Server Keys)
        → InCap s.state
        → InCap (insert_internal hash encode drawn owner s).1.state
    unfolding insert_internal
    insert_internal-InCap drawn owner s h =
        kept s.state (λ _ d'. InCap d') (insert_internal hash encode drawn owner s) h (λ _ d' q. q)
          (Gives-bind (generate_secret drawn)
            (λ key. insert_key (playground_key hash encode owner key) >>= λ id.
              pure (id, playground_key hash encode owner key))
            (λ key. starts_with key "sk-" ≡ true) (λ _ d'. InCap d') s.state s
            (secret-Gives hash encode drawn s.state s refl)
            λ key t _ at.
              Gives-map (insert_key (playground_key hash encode owner key))
                (λ id. (id, playground_key hash encode owner key))
                (Inserted s.state (playground_key hash encode owner key)) (λ _ d'. InCap d') s.state
                t (insert_key-Inserted s.state (playground_key hash encode owner key) t at)
                λ id d' q.
                  inserted-InCap s.state (playground_key hash encode owner key) id d'
                    (playground_hidden owner key) h q)

    lookup-Gives :
        (owner : ℕ) (s : Server Keys)
        → Gives s.state (λ _ d'. d' ≡ s.state) (get_by_user_and_name owner internal_name s)
    unfolding get_by_user_and_name
    lookup-Gives owner s =
        statement-Gives _ (λ _ d'. d' ≡ s.state) s.state s refl λ r d' e. ground arith

    after_lookup-InCap :
        (drawn : Option String) (owner : ℕ) (d : Keys) (r : Result (ℕ × ApiKey) × Server Keys)
        → InCap d
        → Gives d (λ _ d'. d' ≡ d) r
        → InCap (after_lookup hash encode drawn owner r).1.state
    unfolding after_lookup
    after_lookup-InCap drawn owner d (ok r, s) h g = rw g h
    after_lookup-InCap drawn owner d (err no_rows, s) h g =
        insert_internal-InCap drawn owner s (rw g h)
    after_lookup-InCap drawn owner d (err e, s) h g = ground arith

    -- One row is written anew and is no more visible than before, or nothing is written.
    abbrev Writes : Keys → ℕ → (ApiKey → ApiKey) → Keys → Type 0
    Writes d id write d' =
        (d' ≡ d)
        ⊎ ((k : ApiKey) × (find id d.rows ≡ some k)
            × (d' ≡ record d { rows = replace id (write k) d.rows }))

    Writes-InCap :
        (d : Keys) (id : ℕ) (write : ApiKey → ApiKey) (d' : Keys)
        → ((k : ApiKey) → is_visible user_id (write k) ≡ true → is_visible user_id k ≡ true)
        → InCap d
        → Writes d id write d'
        → InCap d'
    Writes-InCap d id write d' hides h (inl same) = rw same h
    Writes-InCap d id write d' hides h (inr (k, found, new)) =
        rw new (omega (arith, h, count-replace user_id id k (write k) d.rows found (hides k)))

    soft_delete-Writes :
        (owner id : ℕ) (s : Server Keys)
        → Gives s.state
            (λ _ d'. Writes s.state id (λ k. record k { deleted = true }) d')
            (soft_delete owner id s)
    unfolding soft_delete
    soft_delete-Writes owner id s =
        statement-Gives _ (λ _ d'. Writes s.state id (λ k. record k { deleted = true }) d') s.state
          s refl
          λ _ d' e. elim (Option-cases (find id s.state.rows)) [
            | inl none_there ↦ inl (ground arith)
            | inr (k, found) ↦ elim (Bool-cases (k.user_id == owner)) [
              | inl own ↦ inr (k, found, ground arith)
              | inr other ↦ inl (ground arith)
            ]
          ]

    abbrev used_now : ℕ → String → ℤ → ApiKey → ApiKey
    used_now now ip add_used k = record k {
      last_used_at = some now;
      last_used_ip = ip;
      quota_used = k.quota_used +ℤ add_used;
    }

    touch_usage-Writes :
        (now id : ℕ) (ip : String) (add_used : ℤ) (s : Server Keys)
        → Gives s.state
            (λ _ d'. Writes s.state id (used_now now ip add_used) d')
            (touch_usage now id ip add_used s)
    unfolding touch_usage
    touch_usage-Writes now id ip add_used s =
        statement-Gives _ (λ _ d'. Writes s.state id (used_now now ip add_used) d') s.state s refl
          λ _ d' e. elim (Option-cases (find id s.state.rows)) [
            | inl none_there ↦ inl (ground arith)
            | inr (k, found) ↦ inr (k, found, ground arith)
          ]

    apply-InCap : (c : Change) (s : Server Keys) → InCap s.state → InCap (apply c s).state
    unfolding apply ensure_internal_key
    apply-InCap (creating drawn owner i) s h =
        kept s.state (Created hash encode (some settings) owner i s.state)
          (create_key hash encode (some settings) drawn owner i s) h
          (λ r d' c. create_key-InCap owner i s.state r d' h c)
          (create_key-Created hash encode (some settings) drawn owner i s)
    apply-InCap (ensuring drawn owner) s h =
        after_lookup-InCap drawn owner s.state (get_by_user_and_name owner internal_name s) h
          (lookup-Gives owner s)
    apply-InCap (deleting owner id) s h =
        kept s.state (λ _ d'. Writes s.state id (λ k. record k { deleted = true }) d')
          (soft_delete owner id s) h
          (λ _ d' w.
            Writes-InCap s.state id (λ k. record k { deleted = true }) d' (λ k seen. ground arith) h
              w)
          (soft_delete-Writes owner id s)
    apply-InCap (touching now id ip add_used) s h =
        kept s.state (λ _ d'. Writes s.state id (used_now now ip add_used) d')
          (touch_usage now id ip add_used s) h
          (λ _ d' w. Writes-InCap s.state id (used_now now ip add_used) d' (λ k seen. seen) h w)
          (touch_usage-Writes now id ip add_used s)

    -- Where keys are capped at a positive number, a user with no more visible keys than that has no
    -- more after any creations, internal keys, deletions and uses, by any users and with any driver
    -- failures.
    pub run-InCap :
        (cs : List Change) (s : Server Keys)
        → count_visible user_id s.state.rows ≤ max
        → count_visible user_id (run cs s).state.rows ≤ max
    unfolding run
    run-InCap [] s h = h
    run-InCap (c ∷ cs) s h = run-InCap cs (apply c s) (apply-InCap c s h)
