-- ===== src/ApiKey/Cap.antt =====
-- The number of keys that a user of internal/apikey may have.
use gpt2api.Prelude.{
  ℕ, ◌+◌, ◌≤◌, ◌≡◌, refl, ap, sym, ◌∙◌, String, Bool, true, false, Option, none, some, List, [],
  ◌∷◌, arith, ◌==◌, str_eq, if◌then◌else◌, Bool-cases, inl, inr,
}
use gpt2api.Prelude.Int.{ℤ, pos, ltb_ℤ, leb_ℤ}
use gpt2api.Prelude.Text.{first_chars, starts_with, starts_with-append}
use gpt2api.Db.Table.{Table, find, replace, find_where}
use gpt2api.Db.Action.{said}
use gpt2api.Db.Call.{
  Server, Call, pure, raise_if, ◌>>=◌, Gives, statement-Gives, Gives-bind, Gives-map,
}
use gpt2api.ApiKey.{
  ApiKey, Keys, insert_key, is_visible, count_visible, count_active_by_user, CreateInput,
  KeySettings, generate_secret, quota_of, json_list_nullable, check_cap, new_key, create_key,
}

-- The keys with one more row.
abbrev pub with_row : Keys → ApiKey → Keys
with_row d k = record d { rows = (d.next, k) ∷ d.rows; next = d.next + 1 }

-- A row whose hash no row had was added under the next id.
pub record Inserted (d : Keys) (k : ApiKey) (id : ℕ) (d' : Keys) : Type 0 where
  pub fresh : find_where (λ x. str_eq x.key_hash k.key_hash) d.rows ≡ none
  pub own_id : id ≡ d.next
  pub stored : d' ≡ with_row d k

pub insert_key-Inserted :
    (d : Keys) (k : ApiKey) (s : Server Keys)
    → s.state ≡ d
    → Gives d (Inserted d k) (insert_key k s)
unfolding insert_key
insert_key-Inserted d k s at =
    statement-Gives _ (Inserted d k) d s at
      λ id d' e. record { fresh = ground arith; own_id = ground arith; stored = ground arith }

-- The user stays within the maximum if there is one.
abbrev pub HasRoom : Option KeySettings → ℕ → ℕ → Type 0
HasRoom none user_id n = Unit {0}
HasRoom (some s) user_id n =
    ltb_ℤ (pos 0) s.max_per_user ≡ true → leb_ℤ s.max_per_user (pos n) ≡ false

-- The row that the form asks for with a secret: it has no use yet, its lists are absent where the
-- form's are empty, and its quota is the default one where the form has none and there are settings.
abbrev pub asked_key :
    (String → String)
    → (List String → String)
    → Option KeySettings
    → ℕ
    → CreateInput
    → String
    → ApiKey
asked_key hash encode settings user_id i key = record {
  user_id = user_id;
  name = i.name;
  key_prefix = first_chars 11 key;
  key_hash = hash key;
  quota_limit =
      if leb_ℤ i.quota_limit (pos 0)
      then elim settings [ none ↦ i.quota_limit | some s ↦ s.default_quota ]
      else i.quota_limit;
  quota_used = pos 0;
  allowed_models = elim i.allowed_models [ [] ↦ none | x ∷ xs ↦ some (encode (x ∷ xs)) ];
  allowed_ips = elim i.allowed_ips [ [] ↦ none | x ∷ xs ↦ some (encode (x ∷ xs)) ];
  rpm = i.rpm;
  tpm = i.tpm;
  expires_at = if i.expires_at == 0 then none else some i.expires_at;
  enabled = true;
  last_used_at = none;
  last_used_ip = "";
  deleted = false;
}

list_asked :
    (encode : List String → String) (l : List String)
    → json_list_nullable encode l
      ≡ (elim l as (λ _. Option String) [ [] ↦ none | x ∷ xs ↦ some (encode (x ∷ xs)) ])
unfolding json_list_nullable
list_asked encode [] = refl
list_asked encode (x ∷ xs) = refl

quota_asked :
    (settings : Option KeySettings) (limit : ℤ)
    → quota_of settings limit ≡ (
        if leb_ℤ limit (pos 0)
        then elim settings as (λ _. ℤ) [ none ↦ limit | some s ↦ s.default_quota ]
        else limit)
quota_asked none limit = elim (Bool-cases (leb_ℤ limit (pos 0))) [
  | inl e ↦ rw e refl
  | inr e ↦ rw e refl
]
quota_asked (some s) limit = refl

-- `Create` makes the row that was asked for.
pub new_key-asked_key :
    (hash : String → String) (encode : List String → String) (settings : Option KeySettings)
    (user_id : ℕ) (i : CreateInput) (key : String)
    → new_key hash encode settings user_id i key ≡ asked_key hash encode settings user_id i key
new_key-asked_key hash encode settings user_id i key =
    ap (λ q. record (new_key hash encode settings user_id i key) { quota_limit = q })
      (quota_asked settings i.quota_limit)
    ∙ ap
        (λ l. record (asked_key hash encode settings user_id i key) {
          allowed_models = l;
          allowed_ips = json_list_nullable encode i.allowed_ips;
        })
        (list_asked encode i.allowed_models)
    ∙ ap (λ l. record (asked_key hash encode settings user_id i key) { allowed_ips = l })
        (list_asked encode i.allowed_ips)

-- The key that was made is stored, and the user had room for it.
pub record Created (hash : String → String) (encode : List String → String)
    (settings : Option KeySettings) (user_id : ℕ) (i : CreateInput) (d : Keys)
    (r : String × ℕ × ApiKey) (d' : Keys) : Type 0 where
  pub row : r.2 ≡ asked_key hash encode settings user_id i r.0
  pub form : starts_with r.0 "sk-" ≡ true
  pub inserted : Inserted d (r.2) (r.1) d'
  pub room : HasRoom settings user_id (count_visible user_id d.rows)

pub made-new_key :
    (hash : String → String) (encode : List String → String) (settings : Option KeySettings)
    (user_id : ℕ) (i : CreateInput) (d : Keys) (r : String × ℕ × ApiKey) (d' : Keys)
    → Created hash encode settings user_id i d r d'
    → r.2 ≡ new_key hash encode settings user_id i r.0
made-new_key hash encode settings user_id i d r d' c =
    c.row ∙ sym (new_key-asked_key hash encode settings user_id i r.0)

module _ (d : Keys) where
  count-Gives :
      (user_id : ℕ) (s : Server Keys)
      → s.state ≡ d
      → Gives d
          (λ n d'. (n ≡ count_visible user_id d.rows) × (d' ≡ d))
          (count_active_by_user user_id s)
  unfolding count_active_by_user
  count-Gives user_id s at =
      statement-Gives _ (λ n d'. (n ≡ count_visible user_id d.rows) × (d' ≡ d)) d s at
        λ n d' e. (ground arith, ground arith)

  check_cap-Gives :
      (settings : Option KeySettings) (user_id : ℕ) (s : Server Keys)
      → s.state ≡ d
      → Gives d
          (λ _ d'. HasRoom settings user_id (count_visible user_id d.rows) × (d' ≡ d))
          (check_cap settings user_id s)
  unfolding check_cap
  check_cap-Gives none user_id s at = (tt, at)
  check_cap-Gives (some c) user_id s at = elim (Bool-cases (ltb_ℤ (pos 0) c.max_per_user)) [
    | inr e ↦ rw e (λ h. ground (arith, h), at)
    | inl e ↦ rw e (
        Gives-bind (count_active_by_user user_id)
          (λ cur. raise_if (leb_ℤ c.max_per_user (pos cur)) (said "key count limit"))
          (λ n. n ≡ count_visible user_id d.rows)
          (λ _ d'.
            (◌≡◌ {A = Bool} true true
              → leb_ℤ c.max_per_user (pos (count_visible user_id d.rows)) ≡ false)
            × (d' ≡ d))
          d s (count-Gives user_id s at)
          λ n t q at'. elim (Bool-cases (leb_ℤ c.max_per_user (pos n))) [
            | inl full ↦ rw full at'
            | inr room ↦ rw room (λ _. rw (← q) room, at')
          ])
  ]

module _ (hash : String → String) (encode : List String → String) where
  pub secret-Gives :
      (drawn : Option String) (d : Keys) (s : Server Keys)
      → s.state ≡ d
      → Gives d (λ key d'. (starts_with key "sk-" ≡ true) × (d' ≡ d)) (generate_secret drawn s)
  unfolding generate_secret
  secret-Gives none d s at = at
  secret-Gives (some x) d s at = (starts_with-append "sk-" _, at)

  store_new : Option KeySettings → ℕ → CreateInput → String → Call Keys (String × ℕ × ApiKey)
  store_new settings user_id i key =
      insert_key (new_key hash encode settings user_id i key) >>= λ id.
      pure (key, id, new_key hash encode settings user_id i key)

  make_new : Option KeySettings → Option String → ℕ → CreateInput → Call Keys (String × ℕ × ApiKey)
  unfolding store_new
  make_new settings drawn user_id i = generate_secret drawn >>= store_new settings user_id i

  -- A successful `Create` stores one new key, with the name, limits, models, addresses and expiry
  -- that were asked for, enabled and not used, under a hash that no row had, for a user who had fewer
  -- visible keys than the maximum where a positive one is set; one that fails changes nothing. Where
  -- no quota was asked for and there are settings, the quota is their default.
  pub create_key-Created :
      (settings : Option KeySettings) (drawn : Option String) (user_id : ℕ) (i : CreateInput)
      (s : Server Keys)
      → Gives s.state
          (Created hash encode settings user_id i s.state)
          (create_key hash encode settings drawn user_id i s)
  unfolding create_key make_new store_new
  create_key-Created settings drawn user_id i s =
      Gives-bind (check_cap settings user_id) (λ _. make_new settings drawn user_id i)
        (λ _. HasRoom settings user_id (count_visible user_id s.state.rows))
        (Created hash encode settings user_id i s.state) s.state s
        (check_cap-Gives s.state settings user_id s refl)
        λ _ t room at.
          Gives-bind (generate_secret drawn) (store_new settings user_id i)
            (λ key. starts_with key "sk-" ≡ true) (Created hash encode settings user_id i s.state)
            s.state t (secret-Gives drawn s.state t at)
            λ key t' form at'.
              Gives-map (insert_key (new_key hash encode settings user_id i key))
                (λ id. (key, id, new_key hash encode settings user_id i key))
                (Inserted s.state (new_key hash encode settings user_id i key))
                (Created hash encode settings user_id i s.state) s.state t'
                (insert_key-Inserted s.state (new_key hash encode settings user_id i key) t' at')
                λ id d' q. record {
                  row = new_key-asked_key hash encode settings user_id i key;
                  form = form;
                  inserted = q;
                  room = room;
                }

-- The rows of a user do not become more, whatever is written into one that stays as visible.
pub count-replace :
    (user_id id : ℕ) (old new : ApiKey) (t : Table ApiKey)
    → find id t ≡ some old
    → (is_visible user_id new ≡ true → is_visible user_id old ≡ true)
    → count_visible user_id (replace id new t) ≤ count_visible user_id t
unfolding find replace count_visible
count-replace user_id id old new [] found h = omega arith
count-replace user_id id old new ((j, k) ∷ t) found h = elim (Bool-cases (id == j)) [
  | inl same ↦
      let is_old : k ≡ old = ground arith in
      rw same (rw is_old (fewer (is_visible user_id old) (is_visible user_id new) h))
  | inr other ↦
      rw other (onto (is_visible user_id k) (count-replace user_id id old new t (ground arith) h))
]
  where
    fewer :
        (a b : Bool)
        → (b ≡ true → a ≡ true)
        → (if b then count_visible user_id t + 1 else count_visible user_id t)
          ≤ (if a then count_visible user_id t + 1 else count_visible user_id t)
    fewer true true h = omega arith
    fewer true false h = omega arith
    fewer false true h = absurd (ground (arith, h refl))
    fewer false false h = omega arith

    onto :
        (b : Bool)
        → count_visible user_id (replace id new t) ≤ count_visible user_id t
        → (if b
            then count_visible user_id (replace id new t) + 1
            else count_visible user_id (replace id new t))
          ≤ (if b then count_visible user_id t + 1 else count_visible user_id t)
    onto true h = omega arith
    onto false h = h
