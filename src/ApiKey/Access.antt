-- ===== src/ApiKey/Access.antt =====
-- Which keys `Service.Verify` of internal/apikey lets in.
use gpt2api.Prelude.{
  ℕ, ◌≡◌, refl, String, Bool, true, false, ◌&&◌, Option, none, some, List, arith, ◌==◌, ltb, str_eq,
  eq_iff, if◌then◌else◌, Bool-cases, inl, inr,
}
use gpt2api.Prelude.Int.{ℤ, pos, ltb_ℤ, leb_ℤ}
use gpt2api.Prelude.Text.{starts_with}
use gpt2api.Db.Table.{find_where}
use gpt2api.Db.Action.{Result, ok, err}
use gpt2api.Db.Call.{Server, Gives, statement, statement-Gives, advance}
use gpt2api.ApiKey.{
  ApiKey, Keys, has_hash, get_by_hash, CreateInput, KeySettings, new_key, usable, after_hash,
  verify_key, quota_of,
}
use gpt2api.ApiKey.Cap.{with_row, Created, made-new_key}

-- The key is there, enabled, not deleted, not expired and has quota left.
pub record Admitted (hash : String → String) (now : ℕ) (key : String) (d : Keys) (r : ℕ × ApiKey)
    (d' : Keys) : Type 0 where
  pub form : starts_with key "sk-" ≡ true
  pub found : find_where (has_hash (hash key)) d.rows ≡ some r
  pub in_time : elim (r.1).expires_at as (λ _. Bool) [ none ↦ false | some at ↦ ltb at now ] ≡ false
  pub has_quota :
      (ltb_ℤ (pos 0) (r.1).quota_limit && leb_ℤ (r.1).quota_limit (r.1).quota_used) ≡ false
  pub unchanged : d' ≡ d

module _ (hash : String → String) (encode : List String → String) where
  usable-Gives :
      (now : ℕ) (key : String) (d : Keys) (r : ℕ × ApiKey) (s : Server Keys)
      → starts_with key "sk-" ≡ true
      → find_where (has_hash (hash key)) d.rows ≡ some r
      → s.state ≡ d
      → Gives d (Admitted hash now key d) (usable hash encode now r s)
  unfolding usable
  usable-Gives now key d (id, k) s form found at = elim (Bool-cases expired) [
    | inl e ↦ rw e at
    | inr e ↦ rw e (elim (Bool-cases spent) [
      | inl f ↦ rw f at
      | inr f ↦
          rw f (record { form = form; found = found; in_time = e; has_quota = f; unchanged = at })
    ])
  ]
    where
      expired : Bool
      expired = elim k.expires_at as (λ _. Bool) [ none ↦ false | some at ↦ ltb at now ]

      spent : Bool
      spent = ltb_ℤ (pos 0) k.quota_limit && leb_ℤ k.quota_limit k.quota_used

  Found : String → Keys → ℕ × ApiKey → Keys → Type 0
  Found key d r d' = (find_where (has_hash (hash key)) d.rows ≡ some r) × (d' ≡ d)

  get_by_hash-Gives :
      (key : String) (s : Server Keys)
      → Gives s.state (Found key s.state) (get_by_hash (hash key) s)
  unfolding get_by_hash Found
  get_by_hash-Gives key s =
      statement-Gives _ (Found key s.state) s.state s refl λ r d' e. (ground arith, ground arith)

  after_hash-Gives :
      (now : ℕ) (key : String) (d : Keys) (r : Result (ℕ × ApiKey) × Server Keys)
      → starts_with key "sk-" ≡ true
      → Gives d (Found key d) r
      → Gives d (Admitted hash now key d) (after_hash hash encode now r)
  unfolding after_hash Found
  after_hash-Gives now key d (ok r, s) form q = usable-Gives now key d r s form q.0 q.1
  after_hash-Gives now key d (err e, s) form q = q

  -- `Verify` lets in only a key that is there, enabled, not deleted, not expired and has quota left,
  -- and changes nothing.
  pub verify_key-Admitted :
      (now : ℕ) (key : String) (s : Server Keys)
      → Gives s.state (Admitted hash now key s.state) (verify_key hash encode now key s)
  unfolding verify_key
  verify_key-Admitted now key s = elim (Bool-cases (starts_with key "sk-")) [
    | inr bad ↦ rw bad refl
    | inl form ↦
        rw form (
          after_hash-Gives now key s.state (get_by_hash (hash key) s) form
            (get_by_hash-Gives key s))
  ]

  -- No expiry was asked for, or it is not over.
  abbrev pub StillValid : CreateInput → ℕ → Type 0
  StillValid i now = (if i.expires_at == 0 then false else ltb i.expires_at now) ≡ false

  found_new :
      (d : Keys) (k : ApiKey)
      → k.enabled ≡ true
      → k.deleted ≡ false
      → find_where (has_hash k.key_hash) (with_row d k).rows ≡ some (d.next, k)
  unfolding find_where
  found_new d k on live = rw (test, on, live) refl
    where
      test : str_eq k.key_hash k.key_hash ≡ true
      test = (eq_iff k.key_hash k.key_hash).1 refl

  get_found :
      (h : String) (r : ℕ × ApiKey) (t : Server Keys)
      → t.faulty t.turn ≡ false
      → find_where (has_hash h) t.state.rows ≡ some r
      → get_by_hash h t ≡ (ok r, advance t)
  unfolding get_by_hash statement
  get_found h r t calm found = ground arith

  usable_ok :
      (now id : ℕ) (k : ApiKey) (t : Server Keys)
      → elim k.expires_at as (λ _. Bool) [ none ↦ false | some at ↦ ltb at now ] ≡ false
      → (ltb_ℤ (pos 0) k.quota_limit && leb_ℤ k.quota_limit k.quota_used) ≡ false
      → usable hash encode now (id, k) t ≡ (ok (id, k), t)
  unfolding usable
  usable_ok now id k t in_time has_quota = rw (in_time, has_quota) refl

  expiry_of :
      (at now : ℕ)
      → (if at == 0 then false else ltb at now) ≡ false
      → elim (if at == 0 then none else some at) as (λ _. Bool) [
        | none ↦ false
        | some x ↦ ltb x now
      ]
        ≡ false
  expiry_of at now h = ground arith

  unused : (q : ℤ) → (ltb_ℤ (pos 0) q && leb_ℤ q (pos 0)) ≡ false
  unused q = ground arith

  new_usable :
      (settings : Option KeySettings) (user_id : ℕ) (i : CreateInput) (now id : ℕ) (key : String)
      (t : Server Keys)
      → StillValid i now
      → usable hash encode now (id, new_key hash encode settings user_id i key) t
        ≡ (ok (id, new_key hash encode settings user_id i key), t)
  new_usable settings user_id i now id key t valid =
      usable_ok now id (new_key hash encode settings user_id i key) t
        (expiry_of i.expires_at now valid) (unused (quota_of settings i.quota_limit))

  -- A key that `Create` made is let in, as the row that was stored, where it was asked for without
  -- an expiry or with one that is not over, and the driver does not fail.
  pub fresh_key_passes :
      (settings : Option KeySettings) (user_id : ℕ) (i : CreateInput) (now : ℕ) (d : Keys)
      (r : String × ℕ × ApiKey) (t : Server Keys)
      → Created hash encode settings user_id i d r t.state
      → StillValid i now
      → t.faulty t.turn ≡ false
      → verify_key hash encode now r.0 t ≡ (ok (r.1, r.2), advance t)
  unfolding verify_key after_hash
  fresh_key_passes settings user_id i now d r t c valid calm =
      let k : ApiKey = new_key hash encode settings user_id i r.0 in
      let is_new : r.2 ≡ k = made-new_key hash encode settings user_id i d r t.state c in
      let found : find_where (has_hash (hash r.0)) t.state.rows ≡ some (d.next, k) =
        rw (c.inserted.stored, is_new) (found_new d k refl refl) in
      rw (c.form, get_found (hash r.0) (d.next, k) t calm found, is_new, c.inserted.own_id)
        (new_usable settings user_id i now d.next r.0 (advance t) valid)
