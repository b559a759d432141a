-- ===== src/Scheduler/Attempt.antt =====
-- One attempt of internal/scheduler/scheduler.go: `tryDispatchOnce`, with `tryLock`.
use gpt2api.Prelude.{
  ℕ, ◌+◌, ◌*◌, ◌/◌, String, Bool, true, false, ◌&&◌, ◌||◌, Option, none, some, [], ◌∷◌, ◌==◌, ltb,
  leb, not, str_eq, if◌then◌else◌,
}
use gpt2api.Prelude.Int.{ℤ, pos, pos_part, ltb_ℤ}
use gpt2api.Db.Table.{Table, find}
use gpt2api.Lock.{Store, Answer, done, not_acquired, driver_error, acquire, release}
use gpt2api.Account.{Account, list_dispatchable, with_device, with_session}
use gpt2api.Proxy.{
  Proxy, World as Shared, Held, Outcome as ProxyOutcome, leased, direct, failure,
  lease as lease_proxy, release_lease, after_turn,
}
use gpt2api.Scheduler.{
  World, Config, RuntimeParams, second, daily_usage_ratio, Lease, fails, tick, write,
}

-- The SELECT that `EnsureDeviceID` and `EnsureSessionID` end with, after their UPDATE.
abbrev pub read_back : (Account → String) → ℕ → Bool × World → Option String × World
read_back field id (true, w) = (none, w)
read_back field id (false, w) =
    if fails w
    then (none, tick w)
    else (elim (find id w.accounts) [ none ↦ none | some a ↦ some (field a) ], tick w)

-- `EnsureDeviceID`
abbrev pub ensure_device_id : ℕ → String → World → Option String × World
ensure_device_id id gen w = read_back (λ a. a.oai_device_id) id (write (with_device gen id) w)

-- `EnsureSessionID`
abbrev pub ensure_session_id : ℕ → String → World → Option String × World
ensure_session_id id gen w = read_back (λ a. a.oai_session_id) id (write (with_session gen id) w)

-- The id that is used, and the one that the account in memory gets.
abbrev pub kept_id : String → String → Option String × World → (String × String) × World
kept_id old gen (none, w) = ((gen, old), w)
kept_id old gen (some fixed, w) = if str_eq fixed "" then ((gen, old), w) else ((fixed, fixed), w)

-- `isRuntimeProxyModel`
abbrev pub is_runtime_proxy_model : String → Bool
is_runtime_proxy_model m = str_eq m "chat" || str_eq m "image"

-- `_ = s.lock.Release(ctx, key, token)`
abbrev pub give_back : ℕ → String → String → World → World
give_back now key token w = record w {
  shared = record (after_turn w.shared) {
    locks = (release (fails w) now key token w.shared.locks).1;
  };
}

-- The outcome of `tryLock`: no lease for an error or a lock that is held.
unfoldable pub attempted : ℕ → Lease → World → ProxyOutcome × Shared → Option Lease × World
attempted now l w (leased p, shared) = (
  some (record l {
    proxy_url = p.proxy_url;
    proxy_id = p.proxy_id;
    proxy_lease = some (record { lease = p; released = false; reported = false });
  }),
  record w { shared = shared },
)
attempted now l w (direct, shared) = (some l, record w { shared = shared })
attempted now l w (failure, shared) =
    (none, give_back now l.lock_key l.lock_token (record w { shared = shared }))

-- The end of one round of the loop; `next` is the rest of the loop.
unfoldable pub or_next :
    (World → Option Lease × World) → Option Lease × World → Option Lease × World
or_next next (some l, w) = (some l, w)
or_next next (none, w) = next w

-- What one attempt ends with.
pub data Attempt : Type 0 where
  got : Lease → Attempt
  busy : Attempt
  list_failed : Attempt

abbrev pub attempt_of : Option Lease × World → Attempt × World
attempt_of (none, w) = (busy, w)
attempt_of (some l, w) = (got l, w)

-- `proxyLease.Release` where there is one
unfoldable pub release_held : ℕ → Option Held → World → Option Held × World
release_held now none w = (none, w)
release_held now (some h) w =
    let (g, shared) = release_lease now h w.shared in (some g, record w { shared = shared })

module _ (key_of proxy_key_of : ℕ → String) (uuid : ℕ → String) (proxy_token : ℕ → ℕ → String)
    (decrypt : String → Option String) (url_of : ℕ → Proxy → Option String) (day_of : ℕ → ℕ)
    (config : Config) (rt : RuntimeParams) where
  abbrev pub ttl : ℕ
  ttl = pos_part config.lock_ttl_sec * second

  abbrev pub device_of : ℕ → Account → World → (String × String) × World
  device_of id a w =
      if str_eq a.oai_device_id ""
      then kept_id a.oai_device_id (uuid w.shared.turn) (ensure_device_id id (uuid w.shared.turn) w)
      else ((a.oai_device_id, a.oai_device_id), w)

  abbrev pub session_of : ℕ → Account → World → (String × String) × World
  session_of id a w =
      if str_eq a.oai_session_id ""
      then kept_id a.oai_session_id (uuid w.shared.turn)
          (ensure_session_id id (uuid w.shared.turn) w)
      else ((a.oai_session_id, a.oai_session_id), w)

  -- `proxySvc.Get` and `BuildURL` for a bound proxy, as key and URL; 0 and no text without one.
  abbrev pub proxy_route : ℕ → Option Proxy → ℕ × String
  proxy_route id none = (0, "")
  proxy_route id (some p) =
      if p.deleted
      then (0, "")
      else if p.enabled
      then elim (url_of id p) [ none ↦ (0, "") | some u ↦ (id, u) ]
      else (0, "")

  abbrev pub bound_proxy : ℕ → World → (ℕ × String) × World
  bound_proxy proxy_id w =
      if fails w
      then ((0, ""), tick w)
      else (proxy_route proxy_id (find proxy_id w.shared.proxies), tick w)

  -- The binding of an account; where the driver fails, `GetBinding` gives one to proxy 0.
  abbrev pub binding_route : ℕ → World → (ℕ × String) × World
  binding_route id w = if fails w then bound_proxy 0 (tick w) else elim (find id w.bindings) [
    | none ↦ ((0, ""), tick w)
    | some proxy_id ↦ bound_proxy proxy_id (tick w)
  ]

  abbrev pub without_proxy :
      ℕ → Account → String → String → (String × String) → (String × String) → Lease
  without_proxy id a token auth device session = record {
    account_id = id;
    account = record a { oai_device_id = device.1; oai_session_id = session.1 };
    auth_token = auth;
    proxy_url = "";
    proxy_id = 0;
    device_id = device.0;
    session_id = session.0;
    proxy_lease = none;
    lock_key = key_of id;
    lock_token = token;
  }

  -- The end of `tryLock`, with the lease but for its proxy.
  unfoldable pub with_proxy : ℕ → String → ℕ → Lease → World → Option Lease × World
  with_proxy now model id l w =
      if is_runtime_proxy_model model
      then attempted now l w
          (lease_proxy proxy_key_of url_of now ttl (proxy_token w.shared.turn) w.shared)
      else let (route, v) = binding_route id w in
        (some (record l { proxy_id = route.0; proxy_url = route.1 }), v)

  -- `tryLock` from the token on, under the lock.
  unfoldable pub with_token :
      ℕ → String → ℕ → Account → String → Option String → World → Option Lease × World
  with_token now model id a token none w = (none, give_back now (key_of id) token w)
  with_token now model id a token (some auth) w =
      let (device, u) = device_of id a w in
      let (session, v) = session_of id a u in
      with_proxy now model id (without_proxy id a token auth device session) v

  unfoldable pub after_acquire :
      ℕ → String → ℕ → Account → String → World → Answer × Store → Option Lease × World
  after_acquire now model id a token w (done, locks) =
      with_token now model id a token (decrypt a.auth_token_enc)
        (record w { shared = record (after_turn w.shared) { locks = locks } })
  after_acquire now model id a token w (not_acquired, locks) = (none, tick w)
  after_acquire now model id a token w (driver_error, locks) = (none, tick w)

  -- `tryLock`
  unfoldable pub try_lock : ℕ → String → ℕ → Account → World → Option Lease × World
  try_lock now model id a w =
      after_acquire now model id a (uuid w.shared.turn) w
        (acquire (fails w) now (key_of id) (uuid w.shared.turn) ttl w.shared.locks)

  -- The uses of today in the view of `tryDispatchOnce`.
  abbrev pub used_today : ℕ → Account → ℕ
  used_today now a = elim a.today_used_date [
    | none ↦ 0
    | some day ↦ if day == day_of now then a.today_used_count else 0
  ]

  -- `int(float64(acc.DailyImageQuota) * s.dailyUsageRatio())` for a positive quota
  abbrev pub daily_max : ℤ → ℕ
  daily_max quota = pos_part quota * pos_part (daily_usage_ratio config rt) / 1000000

  -- The two tests of the loop of `tryDispatchOnce`.
  abbrev pub is_rested : ℕ → Account → Bool
  is_rested now a = elim a.last_used_at [
    | none ↦ true
    | some t ↦ leb (t + pos_part config.min_interval_sec * second) now
  ]

  abbrev pub has_quota : ℕ → Account → Bool
  has_quota now a =
      if ltb_ℤ (pos 0) a.daily_image_quota
      then not (
          ltb 0 (daily_max a.daily_image_quota)
          && leb (daily_max a.daily_image_quota) (used_today now a))
      else true

  -- The loop of `tryDispatchOnce`
  unfoldable pub dispatch_from : ℕ → String → Table Account → World → Option Lease × World
  dispatch_from now model [] w = (none, w)
  dispatch_from now model ((id, a) ∷ rest) w =
      or_next (dispatch_from now model rest)
        (if is_rested now a && has_quota now a then try_lock now model id a w else (none, w))

  -- `tryDispatchOnce`
  unfoldable pub try_dispatch_once : ℕ → String → World → Attempt × World
  try_dispatch_once now model w =
      if fails w
      then (list_failed, tick w)
      else attempt_of
          (dispatch_from now model (list_dispatchable now (day_of now) 30 w.accounts) (tick w))
