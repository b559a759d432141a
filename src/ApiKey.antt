-- ===== src/ApiKey.antt =====
-- internal/apikey: the keys that clients send. `hash` is SHA-256 in hex, `encode` and `decode` are
-- JSON lists of texts, `drawn` the base64 text of 32 random bytes, or none where the source fails.
-- The rows carry the columns of `api_keys` but for the creation times.
pub mod Cap
pub mod History
pub mod Access
mod Tests
use gpt2api.Prelude.{
  ℕ, ◌+◌, String, Bool, true, false, ◌&&◌, Option, none, some, List, [], ◌∷◌, ◌==◌, ltb, leb, not,
  str_eq, concat, if◌then◌else◌,
}
use gpt2api.Prelude.Int.{ℤ, pos, ◌+ℤ◌, ltb_ℤ, leb_ℤ, fits_int64}
use gpt2api.Prelude.Text.{starts_with, first_chars, replace_char}
use gpt2api.Db.Table.{Table, find, replace, find_where}
use gpt2api.Db.Action.{Error, said, no_rows, duplicate_key, out_of_range, Result, ok, err}
use gpt2api.Db.Call.{Server, Call, pure, raise, raise_if, ◌>>=◌, ◌>>◌, statement}

pub record ApiKey : Type 0 where
  pub user_id : ℕ
  pub name : String
  pub key_prefix : String
  pub key_hash : String
  pub quota_limit : ℤ
  pub quota_used : ℤ
  pub allowed_models : Option String
  pub allowed_ips : Option String
  pub rpm : ℤ
  pub tpm : ℤ
  pub expires_at : Option ℕ
  pub enabled : Bool
  pub last_used_at : Option ℕ
  pub last_used_ip : String
  pub deleted : Bool

pub record Keys : Type 0 where
  pub rows : Table ApiKey
  pub next : ℕ

-- `InternalKeyName`
abbrev pub internal_name : String
internal_name = "__playground__"

-- `DAO.Create`; `uk_key_hash` keeps the hashes distinct, those of deleted keys included.
pub insert_key : ApiKey → Call Keys ℕ
insert_key k = statement λ d. elim (find_where (λ x. str_eq x.key_hash k.key_hash) d.rows) [
  | some r ↦ err duplicate_key
  | none ↦ ok (d.next, record d { rows = (d.next, k) ∷ d.rows; next = d.next + 1 })
]

-- `DAO.GetByID`
pub get_key : ℕ → Call Keys ApiKey
get_key id = statement λ d. elim (find id d.rows) [
  | none ↦ err no_rows
  | some k ↦ if k.deleted then err no_rows else ok (k, d)
]

abbrev pub has_hash : String → ApiKey → Bool
has_hash hashed k = str_eq k.key_hash hashed && (k.enabled && not k.deleted)

-- `DAO.GetByHash`, with the key of the row.
pub get_by_hash : String → Call Keys (ℕ × ApiKey)
get_by_hash hashed =
    statement
      λ d. elim (find_where (has_hash hashed) d.rows) [ none ↦ err no_rows | some r ↦ ok (r, d) ]

-- `user_id = ? AND deleted_at IS NULL AND name <> ?`
abbrev pub is_visible : ℕ → ApiKey → Bool
is_visible user_id k =
    (k.user_id == user_id) && (not k.deleted && not (str_eq k.name internal_name))

unfoldable pub count_visible : ℕ → Table ApiKey → ℕ
count_visible user_id [] = 0
count_visible user_id ((id, k) ∷ t) =
    let rest = count_visible user_id t in if is_visible user_id k then rest + 1 else rest

-- `DAO.CountActiveByUser`
pub count_active_by_user : ℕ → Call Keys ℕ
count_active_by_user user_id = statement λ d. ok (count_visible user_id d.rows, d)

-- `ORDER BY id DESC LIMIT 1` over the rows of a user with a name.
pub latest_named : ℕ → String → Table ApiKey → Option (ℕ × ApiKey)
latest_named user_id name [] = none
latest_named user_id name ((id, k) ∷ t) =
    let rest = latest_named user_id name t in
    if (k.user_id == user_id) && (str_eq k.name name && not k.deleted)
    then elim rest [
      | none ↦ some (id, k)
      | some (id', k') ↦ if ltb id' id then some (id, k) else some (id', k')
    ]
    else rest

-- `DAO.GetByUserAndName`
pub get_by_user_and_name : ℕ → String → Call Keys (ℕ × ApiKey)
get_by_user_and_name user_id name =
    statement
      λ d. elim (latest_named user_id name d.rows) [ none ↦ err no_rows | some r ↦ ok (r, d) ]

-- What `DAO.Update` writes of `k` into a row.
abbrev pub written : ApiKey → ApiKey → ApiKey
written k row = record row {
  name = k.name;
  quota_limit = k.quota_limit;
  allowed_models = k.allowed_models;
  allowed_ips = k.allowed_ips;
  rpm = k.rpm;
  tpm = k.tpm;
  expires_at = k.expires_at;
  enabled = k.enabled;
}

-- `DAO.Update`
pub update_key : ℕ → ApiKey → Call Keys (Unit {0})
update_key id k = statement λ d. elim (find id d.rows) [
  | none ↦ ok (tt, d)
  | some row ↦
      if (row.user_id == k.user_id) && not row.deleted
      then ok (tt, record d { rows = replace id (written k row) d.rows })
      else ok (tt, d)
]

-- `DAO.SoftDelete`, which is `Service.Delete`.
pub soft_delete : ℕ → ℕ → Call Keys (Unit {0})
soft_delete user_id id = statement λ d. elim (find id d.rows) [
  | none ↦ ok (tt, d)
  | some row ↦
      if row.user_id == user_id
      then ok (tt, record d { rows = replace id (record row { deleted = true }) d.rows })
      else ok (tt, d)
]

-- `DAO.TouchUsage`
pub touch_usage : ℕ → ℕ → String → ℤ → Call Keys (Unit {0})
touch_usage now id ip add_used = statement λ d. elim (find id d.rows) [
  | none ↦ ok (tt, d)
  | some row ↦
      if fits_int64 (row.quota_used +ℤ add_used)
      then ok (
        tt,
        record d {
          rows =
              replace id
                (record row {
                  last_used_at = some now;
                  last_used_ip = ip;
                  quota_used = row.quota_used +ℤ add_used;
                })
                d.rows;
        },
      )
      else err out_of_range
]

-- `CreateInput` and `UpdateInput`; time 0 is Go's zero time.
pub record CreateInput : Type 0 where
  pub name : String
  pub quota_limit : ℤ
  pub allowed_models : List String
  pub allowed_ips : List String
  pub rpm : ℤ
  pub tpm : ℤ
  pub expires_at : ℕ

-- A list may be nil here.
pub record UpdateInput : Type 0 where
  pub name : String
  pub quota_limit : ℤ
  pub allowed_models : Option (List String)
  pub allowed_ips : Option (List String)
  pub rpm : ℤ
  pub tpm : ℤ
  pub expires_at : ℕ
  pub enabled : Option Bool

-- The settings that `Create` reads, `KeyMaxPerUser` and `KeyDefaultDailyQuota`.
pub record KeySettings : Type 0 where
  pub max_per_user : ℤ
  pub default_quota : ℤ

-- `generateSecret`
pub generate_secret : {S : Type 0} → Option String → Call S String
generate_secret none = raise (said "rand")
generate_secret (some drawn) =
    pure (concat "sk-" (replace_char b'_' "y" (replace_char b'-' "x" drawn)))

-- `jsonListNullable`
pub json_list_nullable : (List String → String) → List String → Option String
json_list_nullable encode [] = none
json_list_nullable encode (x ∷ xs) = some (encode (x ∷ xs))

-- The check of `Create` against the number of keys of a user.
pub check_cap : Option KeySettings → ℕ → Call Keys (Unit {0})
check_cap none user_id = pure tt
check_cap (some s) user_id =
    if ltb_ℤ (pos 0) s.max_per_user
    then (count_active_by_user user_id >>= λ cur.
        raise_if (leb_ℤ s.max_per_user (pos cur)) (said "key count limit"))
    else pure tt

abbrev pub quota_of : Option KeySettings → ℤ → ℤ
quota_of none limit = limit
quota_of (some s) limit = if leb_ℤ limit (pos 0) then s.default_quota else limit

module _ (hash : String → String) (encode : List String → String) where
  -- The row that `Create` inserts for a secret.
  abbrev pub new_key : Option KeySettings → ℕ → CreateInput → String → ApiKey
  new_key settings user_id i key = record {
    user_id = user_id;
    name = i.name;
    key_prefix = first_chars 11 key;
    key_hash = hash key;
    quota_limit = quota_of settings i.quota_limit;
    quota_used = pos 0;
    allowed_models = json_list_nullable encode i.allowed_models;
    allowed_ips = json_list_nullable encode i.allowed_ips;
    rpm = i.rpm;
    tpm = i.tpm;
    expires_at = if i.expires_at == 0 then none else some i.expires_at;
    enabled = true;
    last_used_at = none;
    last_used_ip = "";
    deleted = false;
  }

  -- `Service.Create`: the plain key, and the row with its id.
  pub create_key :
      Option KeySettings → Option String → ℕ → CreateInput → Call Keys (String × ℕ × ApiKey)
  create_key settings drawn user_id i = do
    check_cap settings user_id
    key ← generate_secret drawn
    id ← insert_key (new_key settings user_id i key)
    pure (key, id, new_key settings user_id i key)

  -- The key of `EnsureInternalKey`.
  abbrev pub playground_key : ℕ → String → ApiKey
  playground_key user_id key = record {
    user_id = user_id;
    name = internal_name;
    key_prefix = first_chars 11 key;
    key_hash = hash key;
    quota_limit = pos 0;
    quota_used = pos 0;
    allowed_models = none;
    allowed_ips = none;
    rpm = pos 0;
    tpm = pos 0;
    expires_at = none;
    enabled = true;
    last_used_at = none;
    last_used_ip = "";
    deleted = false;
  }

  -- What `EnsureInternalKey` does where the user has none.
  pub insert_internal : Option String → ℕ → Call Keys (ℕ × ApiKey)
  insert_internal drawn user_id = do
    key ← generate_secret drawn
    id ← insert_key (playground_key user_id key)
    pure (id, playground_key user_id key)

  pub after_lookup :
      Option String → ℕ → Result (ℕ × ApiKey) × Server Keys → Result (ℕ × ApiKey) × Server Keys
  after_lookup drawn user_id (ok r, s) = (ok r, s)
  after_lookup drawn user_id (err no_rows, s) = insert_internal drawn user_id s
  after_lookup drawn user_id (err e, s) = (err e, s)

  -- `Service.EnsureInternalKey`
  pub ensure_internal_key : Option String → ℕ → Call Keys (ℕ × ApiKey)
  ensure_internal_key drawn user_id s =
      after_lookup drawn user_id (get_by_user_and_name user_id internal_name s)

  -- The changes of `Update` to the row that it read.
  abbrev pub changed : UpdateInput → ApiKey → ApiKey
  changed i k = record k {
    name = if str_eq i.name "" then k.name else i.name;
    quota_limit = if leb_ℤ (pos 0) i.quota_limit then i.quota_limit else k.quota_limit;
    allowed_models = elim i.allowed_models [
      | none ↦ k.allowed_models
      | some l ↦ json_list_nullable encode l
    ];
    allowed_ips = elim i.allowed_ips [
      | none ↦ k.allowed_ips
      | some l ↦ json_list_nullable encode l
    ];
    rpm = if leb_ℤ (pos 0) i.rpm then i.rpm else k.rpm;
    tpm = if leb_ℤ (pos 0) i.tpm then i.tpm else k.tpm;
    expires_at = if i.expires_at == 0 then k.expires_at else some i.expires_at;
    enabled = elim i.enabled [ none ↦ k.enabled | some b ↦ b ];
  }

  -- `Service.Update`
  pub update_by_user : ℕ → ℕ → UpdateInput → Call Keys ApiKey
  update_by_user user_id id i = do
    k ← get_key id
    raise_if (not (k.user_id == user_id)) (said "forbidden")
    update_key id (changed i k)
    pure (changed i k)

  -- The checks of `Verify` on the row that was found.
  pub usable : ℕ → ℕ × ApiKey → Call Keys (ℕ × ApiKey)
  usable now (id, k) = do
    raise_if (elim k.expires_at [ none ↦ false | some at ↦ ltb at now ]) (said "API Key 已过期")
    raise_if (ltb_ℤ (pos 0) k.quota_limit && leb_ℤ k.quota_limit k.quota_used)
        (said "API Key 配额已用完")
    pure (id, k)

  pub after_hash : ℕ → Result (ℕ × ApiKey) × Server Keys → Result (ℕ × ApiKey) × Server Keys
  after_hash now (ok r, s) = usable now r s
  after_hash now (err e, s) = (err (said "API Key 不存在或已被停用"), s)

  -- `Service.Verify`
  pub verify_key : ℕ → String → Call Keys (ℕ × ApiKey)
  verify_key now key s =
      if starts_with key "sk-"
      then after_hash now (get_by_hash (hash key) s)
      else (err (said "API Key 格式不正确"), s)

-- A text is in a list.
unfoldable pub has : String → List String → Bool
has x [] = false
has x (y ∷ ys) = if str_eq y x then true else has x ys

-- The loop of `ModelAllowed` and `IPAllowed` over the decoded list; an empty list allows all.
abbrev pub in_list : String → List String → Bool
in_list x [] = true
in_list x (y ∷ ys) = has x (y ∷ ys)

abbrev pub allowed_by : (String → Option (List String)) → Option String → String → Bool
allowed_by decode none x = true
allowed_by decode (some text) x =
    if str_eq text "" then true else elim (decode text) [ none ↦ true | some l ↦ in_list x l ]

-- `APIKey.ModelAllowed`
pub model_allowed : (String → Option (List String)) → ApiKey → String → Bool
model_allowed decode k slug = allowed_by decode k.allowed_models slug

-- `APIKey.IPAllowed`
pub ip_allowed : (String → Option (List String)) → ApiKey → String → Bool
ip_allowed decode k ip = allowed_by decode k.allowed_ips ip
