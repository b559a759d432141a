-- ===== src/Scheduler.antt =====
-- internal/scheduler/scheduler.go: which account a request gets, and the lock that it holds meanwhile.
-- Every statement and every Redis command takes a turn and may fail there, having done nothing; one
-- attempt sees one time. Times and the lives of locks count nanoseconds, ratios millionths, and the
-- product of a quota and a ratio is exact. The leases of proxies and the locks are those of Proxy and
-- Lock. In the children `key_of` and `proxy_key_of` name the locks of an account and a proxy, `uuid`
-- is the random text drawn at a turn, `proxy_token` that for a proxy, `decrypt` AES-GCM, `url_of` the
-- URL of a proxy and `day_of` the local day.
pub mod Attempt
pub mod Dispatch
pub mod Proxies
pub mod Locks
pub mod Leasing
pub mod Exclusive
pub mod Releasing
pub mod Waiting
mod Tests
use gpt2api.Prelude.{
  ℕ, zero, suc, ◌+◌, ◌-◌, ◌*◌, ◌/◌, String, Bool, true, false, ◌&&◌, ◌||◌, Option, none, some, List,
  [], ◌∷◌, ◌==◌, ltb, leb, not, str_eq, if◌then◌else◌,
}
use gpt2api.Prelude.Int.{ℤ, pos, pos_part, ltb_ℤ, leb_ℤ}
use gpt2api.Db.Table.{Table, find}
use gpt2api.Lock.{Store, Answer, done, not_acquired, driver_error, acquire, release}
use gpt2api.Account.{
  Account, Status, healthy, warned, throttled, dead, list_dispatchable, with_device, with_session,
  mark_used, set_status,
}
use gpt2api.Proxy.{
  Proxy, World as Shared, Lease as ProxyLease, Held, Outcome as ProxyOutcome, leased, direct,
  failure, lease as lease_proxy, release_lease, fails_now, after_turn,
}

-- The accounts and their proxies, and what the allocator of proxies works on: the proxies, the
-- locks, the turns and the faults.
pub record World : Type 0 where
  pub accounts : Table Account
  pub bindings : Table ℕ
  pub shared : Shared

pub record Config : Type 0 where
  pub min_interval_sec : ℤ
  pub daily_usage_ratio : ℤ
  pub lock_ttl_sec : ℤ
  pub cooldown_429_sec : ℤ
  pub warned_pause_hours : ℤ

-- What the callbacks of `RuntimeParams` return now, or none for one that is not set.
pub record RuntimeParams : Type 0 where
  pub daily_usage_ratio : Option ℤ
  pub cooldown_429_sec : Option ℤ
  pub warned_pause_hours : Option ℤ
  pub queue_wait_sec : Option ℤ

-- The defaults of `New`.
abbrev pub defaulted : Config → Config
defaulted c = record c {
  lock_ttl_sec = if leb_ℤ c.lock_ttl_sec (pos 0) then pos 180 else c.lock_ttl_sec;
  min_interval_sec = if leb_ℤ c.min_interval_sec (pos 0) then pos 5 else c.min_interval_sec;
  daily_usage_ratio = if leb_ℤ c.daily_usage_ratio (pos 0) then pos 800000 else c.daily_usage_ratio;
  cooldown_429_sec = if leb_ℤ c.cooldown_429_sec (pos 0) then pos 300 else c.cooldown_429_sec;
}

abbrev pub second : ℕ
second = 1000000000

abbrev pub hour : ℕ
hour = 3600000000000

-- `dailyUsageRatio`
abbrev pub daily_usage_ratio : Config → RuntimeParams → ℤ
daily_usage_ratio c rt = elim rt.daily_usage_ratio [
  | none ↦ c.daily_usage_ratio
  | some v ↦ if ltb_ℤ (pos 0) v && leb_ℤ v (pos 1000000) then v else c.daily_usage_ratio
]

abbrev pub set_positive : Option ℤ → ℤ → ℤ
set_positive none v = v
set_positive (some x) v = if ltb_ℤ (pos 0) x then x else v

-- `cooldown429`; a negative pause is taken as none.
abbrev pub cooldown_429 : Config → RuntimeParams → ℕ
cooldown_429 c rt = pos_part (set_positive rt.cooldown_429_sec c.cooldown_429_sec) * second

-- `warnedPause`
abbrev pub warned_pause : Config → RuntimeParams → ℕ
warned_pause c rt = pos_part (set_positive rt.warned_pause_hours c.warned_pause_hours) * hour

-- `queueWait`
abbrev pub queue_wait : RuntimeParams → ℕ
queue_wait rt = elim rt.queue_wait_sec [
  | none ↦ 120 * second
  | some v ↦ if leb_ℤ (pos 0) v then pos_part v * second else 120 * second
]

pub record Lease : Type 0 where
  pub account_id : ℕ
  pub account : Account
  pub auth_token : String
  pub proxy_url : String
  pub proxy_id : ℕ
  pub device_id : String
  pub session_id : String
  pub proxy_lease : Option Held
  pub lock_key : String
  pub lock_token : String

abbrev pub fails : World → Bool
fails w = fails_now w.shared

abbrev pub tick : World → World
tick w = record w { shared = after_turn w.shared }

-- One UPDATE of accounts: whether it fails, and the world after it.
abbrev pub write : (Table Account → Table Account) → World → Bool × World
write f w = if fails w then (true, tick w) else (false, record (tick w) { accounts = f w.accounts })

-- `MarkRateLimited`, `MarkWarned`, `MarkDead` and `RestoreHealthy`, whose errors are dropped.
pub mark_rate_limited : Config → RuntimeParams → ℕ → ℕ → World → World
mark_rate_limited config rt now id w =
    (write (set_status throttled (some (now + cooldown_429 config rt)) id) w).1

pub mark_warned : Config → RuntimeParams → ℕ → ℕ → World → World
mark_warned config rt now id w =
    (write (set_status warned (some (now + warned_pause config rt)) id) w).1

pub mark_dead : ℕ → World → World
mark_dead id w = (write (set_status dead none id) w).1

pub restore_healthy : ℕ → World → World
restore_healthy id w = (write (set_status healthy none id) w).1
