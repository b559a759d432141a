-- ===== src/Account.antt =====
-- internal/account/dao.go: the rows of accounts and what each statement makes of the table. Times
-- count nanoseconds; a day is a number, that of the local day of a time. Rows that an ORDER BY leaves
-- equal stay in the order of the table.
pub mod Rows
use gpt2api.Prelude.{
  ℕ, ◌+◌, ◌-◌, String, Bool, true, false, ◌&&◌, ◌||◌, Option, none, some, List, [], ◌∷◌, ◌==◌, ltb,
  leb, not, take, str_eq, if◌then◌else◌,
}
use gpt2api.Prelude.Int.{ℤ, pos, negsuc, ltb_ℤ, leb_ℤ, ◌-ℤ◌}
use gpt2api.Prelude.Sort.{sort_by}
use gpt2api.Db.Table.{Table, find, replace}

pub data Status : Type 0 where
  healthy warned throttled suspicious dead : Status

pub record Account : Type 0 where
  pub email : String
  pub auth_token_enc : String
  pub refresh_token_enc : Option String
  pub session_token_enc : Option String
  pub token_expires_at : Option ℕ
  pub oai_session_id : String
  pub oai_device_id : String
  pub daily_image_quota : ℤ
  pub status : Status
  pub cooldown_until : Option ℕ
  pub last_used_at : Option ℕ
  pub today_used_count : ℕ
  pub today_used_date : Option ℕ
  pub last_refresh_at : Option ℕ
  pub last_refresh_source : String
  pub refresh_error : String
  pub image_quota_remaining : ℤ
  pub image_quota_total : ℤ
  pub image_quota_reset_at : Option ℕ
  pub image_quota_updated_at : Option ℕ
  pub deleted_at : Option ℕ

abbrev pub is_live : Account → Bool
is_live a = elim a.deleted_at [ none ↦ true | some t ↦ false ]

-- `fill`, on the day `today`, but for the two flags that are only shown.
abbrev pub fill : ℕ → Account → Account
fill today a = record a {
  today_used_count = elim a.today_used_date [
    | none ↦ 0
    | some day ↦ if day == today then a.today_used_count else 0
  ];
}

-- A time that is absent or not after `now`.
abbrev pub is_over : ℕ → Option ℕ → Bool
is_over now none = true
is_over now (some t) = leb t now

-- A time that is absent or after `now`.
abbrev pub is_ahead : ℕ → Option ℕ → Bool
is_ahead now none = true
is_ahead now (some t) = ltb now t

abbrev pub is_healthy : Status → Bool
is_healthy healthy = true
is_healthy _ = false

abbrev pub is_warned : Status → Bool
is_warned warned = true
is_warned _ = false

-- The condition of `ListDispatchable`.
abbrev pub is_dispatchable : ℕ → Account → Bool
is_dispatchable now a =
    is_live a
    && ((is_healthy a.status || is_warned a.status)
        && (is_over now a.cooldown_until && is_ahead now a.token_expires_at))

-- Never used first, then by the time of the last use.
abbrev pub used_no_later : Option ℕ → Option ℕ → Bool
used_no_later none _ = true
used_no_later (some a) none = false
used_no_later (some a) (some b) = leb a b

-- The order of `ListDispatchable`.
abbrev pub comes_first : ℕ × Account → ℕ × Account → Bool
comes_first (i, a) (j, b) =
    if is_healthy a.status
    then if is_healthy b.status then used_no_later a.last_used_at b.last_used_at else true
    else if is_healthy b.status
    then false
    else used_no_later a.last_used_at b.last_used_at

unfoldable pub selected : ℕ → Table Account → Table Account
selected now [] = []
selected now ((i, a) ∷ t) =
    let rest = selected now t in if is_dispatchable now a then (i, a) ∷ rest else rest

unfoldable pub fill_all : ℕ → Table Account → Table Account
fill_all today [] = []
fill_all today ((i, a) ∷ t) = (i, fill today a) ∷ fill_all today t

-- `ListDispatchable`
abbrev pub list_dispatchable : ℕ → ℕ → ℕ → Table Account → Table Account
list_dispatchable now today limit t =
    fill_all today (take limit (sort_by comes_first (selected now t)))

-- `UPDATE oai_accounts SET … WHERE id = ?` under a test of the row.
abbrev pub set_row :
    (Account → Bool) → (Account → Account) → ℕ → Table Account → Option Account → Table Account
set_row test write id t none = t
set_row test write id t (some a) = if test a then replace id (write a) t else t

abbrev pub set_where : (Account → Bool) → (Account → Account) → ℕ → Table Account → Table Account
set_where test write id t = set_row test write id t (find id t)

-- The UPDATE of `EnsureDeviceID`
abbrev pub with_device : String → ℕ → Table Account → Table Account
with_device gen =
    set_where (λ a. is_live a && str_eq a.oai_device_id "") (λ a. record a { oai_device_id = gen })

-- The UPDATE of `EnsureSessionID`
abbrev pub with_session : String → ℕ → Table Account → Table Account
with_session gen =
    set_where (λ a. is_live a && str_eq a.oai_session_id "")
      (λ a. record a { oai_session_id = gen })

-- What `MarkUsed` writes.
abbrev pub used : ℕ → ℕ → Account → Account
used now today a = record a {
  last_used_at = some now;
  today_used_count = elim a.today_used_date [
    | none ↦ 1
    | some day ↦ if day == today then a.today_used_count + 1 else 1
  ];
  today_used_date = some today;
}

-- `MarkUsed`
abbrev pub mark_used : ℕ → ℕ → ℕ → Table Account → Table Account
mark_used now today = set_where (λ a. true) (used now today)

-- `SetStatus`
abbrev pub set_status : Status → Option ℕ → ℕ → Table Account → Table Account
set_status status cooldown =
    set_where (λ a. true) (λ a. record a { status = status; cooldown_until = cooldown })

-- `SoftDelete`
abbrev pub soft_delete : ℕ → ℕ → Table Account → Table Account
soft_delete now = set_where (λ a. true) (λ a. record a { deleted_at = some now })

-- `Restore`, with the number of rows affected.
abbrev pub restore : ℕ → Table Account → ℕ × Table Account
restore id t = elim (find id t) [
  | none ↦ (0, t)
  | some a ↦ if is_live a then (0, t) else (1, replace id (record a { deleted_at = none }) t)
]

abbrev pub recovered : Status → Status
recovered dead = healthy
recovered suspicious = healthy
recovered s = s

-- What `ApplyRefreshResult` writes; an empty refresh token leaves the old one.
abbrev pub refreshed : ℕ → String → String → ℕ → String → Account → Account
refreshed now at_enc rt_enc expires_at source a = record a {
  auth_token_enc = at_enc;
  refresh_token_enc = if str_eq rt_enc "" then a.refresh_token_enc else some rt_enc;
  token_expires_at = some expires_at;
  last_refresh_at = some now;
  last_refresh_source = source;
  refresh_error = "";
  status = recovered a.status;
}

-- `ApplyRefreshResult`
abbrev pub apply_refresh_result :
    ℕ → String → String → ℕ → String → ℕ → Table Account → Table Account
apply_refresh_result now at_enc rt_enc expires_at source =
    set_where is_live (refreshed now at_enc rt_enc expires_at source)

-- What `RecordRefreshError` writes; a failure that is final leaves a token that is still good.
abbrev pub refresh_failed : ℕ → String → String → Bool → Account → Account
refresh_failed now source reason mark_dead a = record a {
  last_refresh_at = some now;
  last_refresh_source = source;
  refresh_error = reason;
  status =
      if mark_dead
      then elim a.token_expires_at [ none ↦ dead | some t ↦ if ltb now t then warned else dead ]
      else a.status;
}

-- `RecordRefreshError`
abbrev pub record_refresh_error : ℕ → String → String → Bool → ℕ → Table Account → Table Account
record_refresh_error now source reason mark_dead =
    set_where is_live (refresh_failed now source reason mark_dead)

abbrev pub max_ℤ : ℤ → ℤ → ℤ
max_ℤ a b = if ltb_ℤ a b then b else a

-- What `ApplyQuotaResult` writes; a negative number stands for one that is unknown.
abbrev pub probed : ℕ → ℤ → ℤ → Option ℕ → Account → Account
probed now remaining total reset_at a = record a {
  image_quota_remaining = if ltb_ℤ remaining (pos 0) then a.image_quota_remaining else remaining;
  image_quota_total = max_ℤ a.image_quota_total (
      max_ℤ (if ltb_ℤ total (pos 0) then pos 0 else total)
        (if ltb_ℤ remaining (pos 0) then pos 0 else remaining));
  image_quota_reset_at = reset_at;
  image_quota_updated_at = some now;
}

-- `ApplyQuotaResult`
abbrev pub apply_quota_result : ℕ → ℤ → ℤ → Option ℕ → ℕ → Table Account → Table Account
apply_quota_result now remaining total reset_at =
    set_where is_live (probed now remaining total reset_at)

-- What `DecrQuota` writes.
abbrev pub decremented : ℤ → Account → Account
decremented n a = record a { image_quota_remaining = max_ℤ (pos 0) (a.image_quota_remaining -ℤ n) }

-- `DecrQuota`
abbrev pub decr_quota : ℤ → ℕ → Table Account → Table Account
decr_quota n id t = if leb_ℤ n (pos 0) then t else set_where is_live (decremented n) id t
