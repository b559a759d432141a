-- ===== src/Channel.antt =====
-- internal/channel: upstream channels, the models that they serve, and the routes to them. `trim` is
-- strings.TrimSpace, `encrypt` and `decrypt` are AES-GCM, `adapt` builds the adapter of a channel
-- from its key. A ratio, a float in the code, counts millionths. Texts that are cut are taken to be
-- ASCII.
pub mod Mappings
pub mod Router
pub mod Counted
pub mod Health
pub mod History
pub mod Order
pub mod Routing
mod Tests
use gpt2api.Prelude.{
  ℕ, zero, suc, ◌+◌, ◌-◌, String, Bool, true, false, ◌&&◌, ◌||◌, Option, none, some, List, [], ◌∷◌,
  ◌++◌, ◌==◌, ltb, leb, not, str_eq, concat, if◌then◌else◌,
}
use gpt2api.Prelude.Int.{ℤ, pos, ltb_ℤ, leb_ℤ}
use gpt2api.Prelude.Text.{first_chars, last_chars, stars, count_chars}
use gpt2api.Db.Table.{Table, find, replace}
use gpt2api.Db.Action.{Error, said, no_rows, duplicate_key, Result, ok, err}
use gpt2api.Db.Call.{Server, Call, pure, raise, raise_if, ◌>>=◌, ◌>>◌, statement}

pub data Status : Type 0 where
  healthy unhealthy : Status

pub record Channel : Type 0 where
  pub name : String
  pub kind : String
  pub base_url : String
  pub api_key_enc : String
  pub enabled : Bool
  pub priority : ℤ
  pub weight : ℤ
  pub timeout_s : ℤ
  pub ratio : ℤ
  pub extra : Option String
  pub status : Status
  pub fail_count : ℕ
  pub last_test_at : Option ℕ
  pub last_test_ok : Option Bool
  pub last_test_error : String
  pub remark : String
  pub deleted : Bool

pub record Mapping : Type 0 where
  pub channel_id : ℕ
  pub local_model : String
  pub upstream_model : String
  pub modality : String
  pub enabled : Bool
  pub priority : ℤ

pub record Channels : Type 0 where
  pub channels : Table Channel
  pub mappings : Table Mapping
  pub next_channel : ℕ
  pub next_mapping : ℕ

-- `CreateInput` and `UpdateInput`, which have the same fields.
pub record ChannelInput : Type 0 where
  pub name : String
  pub kind : String
  pub base_url : String
  pub api_key : String
  pub enabled : Bool
  pub priority : ℤ
  pub weight : ℤ
  pub timeout_s : ℤ
  pub ratio : ℤ
  pub extra : String
  pub remark : String

-- `DAO.Create`
pub insert_channel : Channel → Call Channels ℕ
insert_channel c = statement λ d. ok (
  d.next_channel,
  record d { channels = (d.next_channel, c) ∷ d.channels; next_channel = d.next_channel + 1 },
)

-- What `DAO.GetByID` makes of the row that it finds.
abbrev pub found : Channels → Option Channel → Result (Channel × Channels)
found d none = err no_rows
found d (some c) = if c.deleted then err no_rows else ok (c, d)

-- `DAO.GetByID`
pub get_channel : ℕ → Call Channels Channel
get_channel id = statement λ d. found d (find id d.channels)

-- What `DAO.Update` writes of `c` into a row.
abbrev pub written : Channel → Channel → Channel
written c row = record row {
  name = c.name;
  kind = c.kind;
  base_url = c.base_url;
  api_key_enc = c.api_key_enc;
  enabled = c.enabled;
  priority = c.priority;
  weight = c.weight;
  timeout_s = c.timeout_s;
  ratio = c.ratio;
  extra = c.extra;
  remark = c.remark;
}

-- `UPDATE upstream_channels SET … WHERE id = ?` under a test of the row that is there.
abbrev pub rewrite_row :
    ℕ → (Channel → Bool) → (Channel → Channel) → Channels → Option Channel → Channels
rewrite_row id test write d none = d
rewrite_row id test write d (some c) =
    if test c then record d { channels = replace id (write c) d.channels } else d

abbrev pub rewrite : ℕ → (Channel → Bool) → (Channel → Channel) → Channels → Channels
rewrite id test write d = rewrite_row id test write d (find id d.channels)

-- `DAO.Update`
pub update_channel : ℕ → Channel → Call Channels (Unit {0})
update_channel id c = statement λ d. ok (tt, rewrite id (λ row. not row.deleted) (written c) d)

-- `DAO.SoftDelete`, which is `Service.Delete`.
pub delete_channel : ℕ → Call Channels (Unit {0})
delete_channel id =
    statement λ d. ok (tt, rewrite id (λ row. true) (λ row. record row { deleted = true }) d)

-- `truncateErr`
pub truncate_err : String → ℕ → String
truncate_err s max = if leb (count_chars s) max then s else first_chars max s

-- What `DAO.UpdateHealth` writes into a row.
abbrev pub probed : ℕ → Bool → String → ℕ → Status → Channel → Channel
probed now passed msg fail_count status row = record row {
  last_test_at = some now;
  last_test_ok = some passed;
  last_test_error = truncate_err msg 500;
  fail_count = fail_count;
  status = status;
}

-- `DAO.UpdateHealth`
pub update_health : ℕ → ℕ → Bool → String → ℕ → Status → Call Channels (Unit {0})
update_health now id passed msg fail_count status =
    statement λ d. ok (tt, rewrite id (λ row. true) (probed now passed msg fail_count status) d)

-- `Service.MarkHealth`, for a channel that was read before.
pub mark_health : ℕ → ℕ → Channel → Bool → String → Call Channels (Unit {0})
mark_health now id c passed msg =
    if passed
    then update_health now id true msg 0 healthy
    else update_health now id false msg (c.fail_count + 1)
        (if leb 3 (c.fail_count + 1) then unhealthy else c.status)

-- `validType`
pub valid_type : String → Bool
valid_type t = str_eq t "openai" || str_eq t "gemini"

-- `validModality`
pub valid_modality : String → Bool
valid_modality m = str_eq m "text" || (str_eq m "image" || str_eq m "video")

-- `maskKey`
pub mask_key : String → String
mask_key s =
    if leb (count_chars s) 8
    then stars (count_chars s)
    else concat (first_chars 4 s) (concat "****" (last_chars 4 s))

abbrev pub nullable : String → Option String
nullable s = if str_eq s "" then none else some s

-- A channel with the fields that `decorate` fills: the masked key and the extra text.
pub record Shown : Type 0 where
  pub channel : Channel
  pub api_key_masked : String
  pub extra_json : String

-- `Service.DecryptKey`
unfoldable pub decrypt_key : (String → Option String) → Channel → Option String
decrypt_key decrypt c = if str_eq c.api_key_enc "" then some "" else decrypt c.api_key_enc

module _ (trim : String → String) (encrypt decrypt : String → Option String) where
  -- `Service.decorate`
  pub decorate : Channel → Shown
  decorate c = record {
    channel = c;
    api_key_masked =
        if str_eq c.api_key_enc ""
        then ""
        else elim (decrypt c.api_key_enc) [ none ↦ "(invalid)" | some key ↦ mask_key key ];
    extra_json = elim c.extra [ none ↦ "" | some text ↦ text ];
  }

  -- `Service.Get`
  pub get_shown : ℕ → Call Channels Shown
  get_shown id = get_channel id >>= λ c. pure (decorate c)

  -- The row that `Create` inserts, with its defaults.
  abbrev pub new_channel : ChannelInput → String → Channel
  new_channel i enc = record {
    name = i.name;
    kind = i.kind;
    base_url = i.base_url;
    api_key_enc = enc;
    enabled = i.enabled;
    priority = if ltb_ℤ i.priority (pos 0) then pos 100 else i.priority;
    weight = if leb_ℤ i.weight (pos 0) then pos 1 else i.weight;
    timeout_s = if leb_ℤ i.timeout_s (pos 0) then pos 120 else i.timeout_s;
    ratio = if leb_ℤ i.ratio (pos 0) then pos 1000000 else i.ratio;
    extra = nullable i.extra;
    status = healthy;
    fail_count = 0;
    last_test_at = none;
    last_test_ok = none;
    last_test_error = "";
    remark = i.remark;
    deleted = false;
  }

  -- `s.cipher.EncryptString`
  abbrev pub encrypted : String → Call Channels String
  encrypted key = elim (encrypt key) [ none ↦ raise (said "encrypt api_key") | some enc ↦ pure enc ]

  -- The checks of `Create`.
  pub checked : ChannelInput → Call Channels (Unit {0})
  checked i = do
    raise_if (str_eq (trim i.name) "") (said "name 不能为空")
    raise_if (not (valid_type i.kind)) (said "type 只能是 openai / gemini")
    raise_if (str_eq (trim i.base_url) "") (said "base_url 不能为空")
    raise_if (str_eq (trim i.api_key) "") (said "api_key 不能为空")

  -- `Service.Create`
  pub create_channel : ChannelInput → Call Channels Shown
  create_channel i = do
    checked i
    enc ← encrypted i.api_key
    id ← insert_channel (new_channel i enc)
    get_shown id

  -- The changes of `Update` to the row that it read; `enc` is its key, new or old.
  abbrev pub edited : ChannelInput → String → Channel → Channel
  edited i enc c = record c {
    name = if str_eq i.name "" then c.name else i.name;
    kind = if str_eq i.kind "" then c.kind else i.kind;
    base_url = if str_eq i.base_url "" then c.base_url else i.base_url;
    api_key_enc = enc;
    enabled = i.enabled;
    priority = if leb_ℤ (pos 0) i.priority then i.priority else c.priority;
    weight = if ltb_ℤ (pos 0) i.weight then i.weight else c.weight;
    timeout_s = if ltb_ℤ (pos 0) i.timeout_s then i.timeout_s else c.timeout_s;
    ratio = if ltb_ℤ (pos 0) i.ratio then i.ratio else c.ratio;
    extra = nullable i.extra;
    remark = i.remark;
  }

  -- `Service.Update`
  pub edit_channel : ℕ → ChannelInput → Call Channels Shown
  edit_channel id i = do
    c ← get_channel id
    raise_if (not (str_eq i.kind "") && not (valid_type i.kind)) (said "type 只能是 openai / gemini")
    enc ← if str_eq i.api_key "" then pure c.api_key_enc else encrypted i.api_key
    update_channel id (edited i enc c)
    get_shown id
