-- ===== src/Checkin.antt =====
-- internal/checkin: one award per user and day. `day_of` is the day of a time in the service's zone
-- as `2006-01-02`, `layout` a time as `2006-01-02 15:04:05`, and `later` the order of days. Time 0
-- is Go's zero time.
mod Tests
pub mod Award
pub mod Daily
use gpt2api.Prelude.{
  ℕ, ◌+◌, String, Bool, true, false, ◌&&◌, Option, none, some, List, [], ◌∷◌, ◌++◌, ◌==◌, ltb,
  str_eq, concat, if◌then◌else◌,
}
use gpt2api.Prelude.Int.{ℤ, pos, leb_ℤ, ltb_ℤ}
use gpt2api.Db.Table.{Table, find, replace, find_where}
use gpt2api.Db.Rows.{Database, Checkin}
use gpt2api.Db.Action.{
  Error, duplicate_key, checkin_disabled, empty_claim, Result, ok, err, Session, Action, pure,
  raise, ◌>>=◌, ◌>>◌, statement, run_tx,
}
use gpt2api.Billing.{award_checkin_tx}

pub record ClaimInput : Type 0 where
  pub day : String
  pub at : ℕ
  pub awarded_credits : ℤ
  pub ref_id : String
  pub remark : String

pub record Status : Type 0 where
  pub enabled : Bool
  pub today : String
  pub checked_in : Bool
  pub today_reward_credits : ℤ
  pub checked_at : String
  pub last_checked_at : String
  pub balance_after : ℤ
  pub awarded_credits : ℤ

-- `user_id = ? AND checkin_day = ?`
abbrev pub is_on : ℕ → String → Checkin → Bool
is_on user_id day c = (c.user_id == user_id) && str_eq c.checkin_day day

-- `getByDay`: no row is no error.
pub get_by_day : ℕ → String → Action (Option Checkin)
get_by_day user_id day = statement λ d. elim (find_where (is_on user_id day) d.checkins) [
  | none ↦ ok (none, d)
  | some (id, c) ↦ ok (some c, d)
]

-- `INSERT INTO user_checkins`, with zero amounts; `uk_user_day` keeps user and day distinct.
pub insert_checkin : ℕ → ClaimInput → Action (Unit {0})
insert_checkin user_id i = statement λ d. elim (find_where (is_on user_id i.day) d.checkins) [
  | some r ↦ err duplicate_key
  | none ↦
      let row : Checkin = record {
        user_id = user_id;
        checkin_day = i.day;
        checked_at = i.at;
        awarded_credits = pos 0;
        balance_after = pos 0;
        ref_id = "";
        remark = "";
      } in
      ok (
        tt,
        record d {
          checkins = (d.next_checkin, row) ∷ d.checkins;
          next_checkin = d.next_checkin + 1;
        },
      )
]

-- The row that the last `UPDATE user_checkins` of `Claim` writes.
abbrev pub awarded : Checkin → ClaimInput → ℤ → Checkin
awarded c i balance = record c {
  checked_at = i.at;
  awarded_credits = i.awarded_credits;
  balance_after = balance;
  ref_id = i.ref_id;
  remark = i.remark;
}

-- `UPDATE user_checkins SET … WHERE user_id = ? AND checkin_day = ?`
pub update_checkin : ℕ → ClaimInput → ℤ → Action (Unit {0})
update_checkin user_id i balance = statement λ d.
    elim (find_where (is_on user_id i.day) d.checkins) [
      | none ↦ ok (tt, d)
      | some (id, c) ↦ ok (tt, record d { checkins = replace id (awarded c i balance) d.checkins })
    ]

-- The rest of `Claim`'s transaction, after the insert.
award : ℕ → ClaimInput → Action (Option Checkin)
award user_id i = do
  balance ← award_checkin_tx user_id i.awarded_credits i.ref_id i.remark
  update_checkin user_id i balance
  get_by_day user_id i.day

claim_tx : ℕ → ClaimInput → Action (Option Checkin)
unfolding award
claim_tx user_id i = insert_checkin user_id i >> award user_id i

-- A duplicate key, which the insert alone can meet, is answered by the row that is there.
after_claim :
    ℕ → String → Result (Option Checkin) × Session → Result (Option Checkin × Bool) × Session
after_claim user_id day (ok c, t) = (ok (c, true), t)
after_claim user_id day (err duplicate_key, t) = (get_by_day user_id day >>= λ c. pure (c, false)) t
after_claim user_id day (err e, t) = (err e, t)

-- `DAO.Claim`: the row, and whether this call made it.
pub claim : ℕ → ClaimInput → Action (Option Checkin × Bool)
unfolding claim_tx after_claim
claim user_id i s = after_claim user_id i.day (run_tx (claim_tx user_id i) s)

-- `Service.rewardCredits`: no settings or a negative one is no reward.
pub reward_credits : Option ℤ → ℤ
reward_credits none = pos 0
reward_credits (some n) = if ltb_ℤ n (pos 0) then pos 0 else n

module _ (day_of layout : ℕ → String) (later : String → String → Bool) where
  -- `formatTime`
  abbrev format_time : ℕ → String
  format_time t = if t == 0 then "" else layout t

  -- `ORDER BY checkin_day DESC, id DESC LIMIT 1` over the rows of one user.
  pub latest_of : ℕ → Table Checkin → Option (ℕ × Checkin)
  latest_of user_id [] = none
  latest_of user_id ((id, c) ∷ t) =
      let rest = latest_of user_id t in
      if c.user_id == user_id
      then elim rest [
        | none ↦ some (id, c)
        | some (id', c') ↦
            if later c.checkin_day c'.checkin_day
            then some (id, c)
            else if later c'.checkin_day c.checkin_day
            then some (id', c')
            else if ltb id' id
            then some (id, c)
            else some (id', c')
      ]
      else rest

  -- `DAO.GetLatest`
  pub get_latest : ℕ → Action (Option Checkin)
  get_latest user_id = statement λ d. elim (latest_of user_id d.checkins) [
    | none ↦ ok (none, d)
    | some (id, c) ↦ ok (some c, d)
  ]

  with_latest : Option Checkin → Status → Status
  with_latest none out = out
  with_latest (some c) out = record out { last_checked_at = format_time c.checked_at }

  with_today : Option Checkin → Status → Status
  with_today none out = out
  with_today (some c) out = record out {
    checked_in = true;
    checked_at = format_time c.checked_at;
    last_checked_at = format_time c.checked_at;
    balance_after = c.balance_after;
    awarded_credits = c.awarded_credits;
  }

  -- `Service.Status`
  pub status : Option ℤ → ℕ → ℕ → Action Status
  unfolding with_latest with_today
  status settings now user_id = do
    let reward = reward_credits settings
    let out : Status = record {
      enabled = ltb_ℤ (pos 0) reward;
      today = day_of now;
      checked_in = false;
      today_reward_credits = reward;
      checked_at = "";
      last_checked_at = "";
      balance_after = pos 0;
      awarded_credits = pos 0;
    }
    last ← get_latest user_id
    c ← get_by_day user_id (day_of now)
    pure (with_today c (with_latest last out))

  -- The status that `Checkin` answers with, from the row that was claimed.
  claimed_status : ℤ → String → Option Checkin → Action Status
  claimed_status reward day none = raise empty_claim
  claimed_status reward day (some c) = pure (record {
    enabled = true;
    today = day;
    checked_in = true;
    today_reward_credits = reward;
    checked_at = format_time c.checked_at;
    last_checked_at = format_time c.checked_at;
    balance_after = c.balance_after;
    awarded_credits = c.awarded_credits;
  })

  -- What `Checkin` claims.
  claim_input : ℕ → ℤ → ClaimInput
  claim_input now reward = record {
    day = day_of now;
    at = now;
    awarded_credits = reward;
    ref_id = concat "checkin:" (day_of now);
    remark = "daily checkin";
  }

  -- `Service.Checkin`. The status that goes with the refusal is dropped: the handler shows none.
  pub check_in : Option ℤ → ℕ → ℕ → Action Status
  unfolding claimed_status claim_input
  check_in settings now user_id =
      (let reward = reward_credits settings in
        if leb_ℤ reward (pos 0)
        then (status settings now user_id >>= λ _. raise checkin_disabled)
        else claim user_id (claim_input now reward) >>= λ r. claimed_status reward (day_of now) r.0)
