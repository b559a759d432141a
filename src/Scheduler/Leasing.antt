-- ===== src/Scheduler/Leasing.antt =====
-- The leases of accounts that internal/scheduler/scheduler.go gives.
use gpt2api.Prelude.{
  ℕ, suc, ◌+◌, ◌*◌, ◌/◌, ◌≤◌, ◌<◌, ◌≡◌, ◌⊎◌, refl, sym, ap, ◌∙◌, String, Bool, true, false, ◌&&◌,
  Option, none, some, [], ◌∷◌, ◌==◌, arith, str_eq, if◌then◌else◌, Bool-cases, Option-cases, inl,
  inr,
}
use gpt2api.Prelude.Int.{pos, pos_part, ◌<ℤ◌}
use gpt2api.Prelude.Sort.{All}
use gpt2api.Db.Table.{Table}
use gpt2api.Lock.{Store, look_up, expiry, acquire}
use gpt2api.Lock.Holding.{entry, entry-put}
use gpt2api.Account.{
  Status, healthy, warned, throttled, suspicious, dead, Account, fill, is_dispatchable,
  list_dispatchable,
}
use gpt2api.Account.Rows.{Has, Candidate, list_dispatchable-All}
use gpt2api.Proxy.{
  Proxy, World as Shared, Outcome as ProxyOutcome, leased, direct, failure, lease as lease_proxy,
}
use gpt2api.Scheduler.{
  World, Config, RuntimeParams, second, daily_usage_ratio, Lease, queue_wait, fails, tick,
}
use gpt2api.Scheduler.Dispatch.{Surroundings, min_backoff, dispatch}
use gpt2api.Scheduler.Waiting.{FromAttempt, Got, loop-FromAttempt}
use gpt2api.Scheduler.Attempt.{
  is_runtime_proxy_model, attempted, or_next, Attempt, got, busy, list_failed, attempt_of,
  device_of, session_of, without_proxy, with_proxy, with_token, after_acquire, try_lock, is_rested,
  has_quota, dispatch_from, try_dispatch_once, ttl,
}
use gpt2api.Scheduler.Proxies.{lease-entry}
use gpt2api.Scheduler.Locks.{locks_of, device_of-locks, session_of-locks, binding_route-locks}

module _ (key_of proxy_key_of : ℕ → String) (uuid : ℕ → String) (proxy_token : ℕ → ℕ → String)
    (decrypt : String → Option String) (url_of : ℕ → Proxy → Option String) (day_of : ℕ → ℕ)
    (config : Config) (rt : RuntimeParams) (now : ℕ) (model : String)
    (apart : (id j : ℕ) → str_eq (key_of id) (proxy_key_of j) ≡ false) where
  abbrev time_to_live : ℕ
  time_to_live = ttl key_of proxy_key_of uuid proxy_token decrypt url_of day_of config rt

  -- A lease for the account `id` whose lock is held with its token.
  abbrev pub Holds : ℕ → Option Lease × World → Type 0
  Holds id (none, w') = Unit {0}
  Holds id (some l, w') =
      (l.account_id ≡ id)
      × (l.lock_key ≡ key_of id)
      × (entry (key_of id) (locks_of w')
          ≡ some (record { token = l.lock_token; until = expiry now time_to_live }))

  abbrev Ready : ℕ → Lease → Store → Type 0
  Ready id l s = Holds id (
    some l,
    record {
      accounts = [];
      bindings = [];
      shared = record { proxies = []; locks = s; turn = 0; faulty = λ n. false };
    },
  )

  attempted-Holds :
      (id : ℕ) (l : Lease) (w : World) (r : ProxyOutcome × Shared)
      → Ready id l (r.1).locks
      → Holds id (attempted now l w r)
  unfolding attempted
  attempted-Holds id l w (leased p, shared) h = h
  attempted-Holds id l w (direct, shared) h = h
  attempted-Holds id l w (failure, shared) h = tt

  with_proxy-Holds :
      (id : ℕ) (l : Lease) (w : World)
      → Ready id l (locks_of w)
      → Holds id (
          with_proxy key_of proxy_key_of uuid proxy_token decrypt url_of day_of config rt now model
            id l w)
  unfolding with_proxy
  with_proxy-Holds id l w h = elim (Bool-cases (is_runtime_proxy_model model)) [
    | inl e ↦ rw e (
        attempted-Holds id l w
          (lease_proxy proxy_key_of url_of now time_to_live (proxy_token w.shared.turn) w.shared)
          (
            h.0,
            h.1,
            lease-entry proxy_key_of url_of now time_to_live (key_of id) (apart id)
                  (proxy_token w.shared.turn) w.shared
                ∙ h.2,
          ))
    | inr e ↦ rw e (
      h.0,
      h.1,
      ap (entry (key_of id)) (
            binding_route-locks key_of proxy_key_of uuid proxy_token decrypt url_of day_of config rt
              id w)
          ∙ h.2,
    )
  ]

  with_token-Holds :
      (id : ℕ) (a : Account) (token : String) (o : Option String) (w : World)
      → entry (key_of id) (locks_of w)
        ≡ some (record { token = token; until = expiry now time_to_live })
      → Holds id (
          with_token key_of proxy_key_of uuid proxy_token decrypt url_of day_of config rt now model
            id a token o w)
  unfolding with_token
  with_token-Holds id a token none w h = tt
  with_token-Holds id a token (some auth) w h =
      let device : (String × String) × World =
        device_of key_of proxy_key_of uuid proxy_token decrypt url_of day_of config rt id a w in
      let session : (String × String) × World =
        session_of key_of proxy_key_of uuid proxy_token decrypt url_of day_of config rt id a
          device.1 in
      with_proxy-Holds id
        (without_proxy key_of proxy_key_of uuid proxy_token decrypt url_of day_of config rt id a
          token auth device.0 session.0)
        session.1
        (
          refl,
          refl,
          ap (entry (key_of id)) (
                session_of-locks key_of proxy_key_of uuid proxy_token decrypt url_of day_of config
                  rt id a device.1
                ∙ device_of-locks key_of proxy_key_of uuid proxy_token decrypt url_of day_of config
                    rt id a w)
              ∙ h,
        )

  pub try_lock-Holds :
      (id : ℕ) (a : Account) (w : World)
      → Holds id (
          try_lock key_of proxy_key_of uuid proxy_token decrypt url_of day_of config rt now model id
            a w)
  unfolding try_lock after_acquire acquire
  try_lock-Holds id a w = elim (Bool-cases (fails w)) [
    | inl f ↦ rw f tt
    | inr f ↦ elim (Option-cases (look_up now (key_of id) (locks_of w))) [
      | inr (other, e) ↦ rw (f, e) tt
      | inl e ↦
          rw (f, e)
            (with_token-Holds id a (uuid w.shared.turn) (decrypt a.auth_token_enc) _ (
              entry-put (key_of id)
                (record { token = uuid w.shared.turn; until = expiry now time_to_live })
                (locks_of w)))
    ]
  ]

  -- A lease of an account that may be used now, with its lock.
  pub record Leased (w : World) (l : Lease) (w' : World) : Type 0 where
    pub row : Account
    pub in_table : Has (l.account_id, row) w.accounts
    pub live : row.deleted_at ≡ none
    pub well : (row.status ≡ healthy) ⊎ (row.status ≡ warned)
    pub cooled : (t : ℕ) → row.cooldown_until ≡ some t → t ≤ now
    pub unexpired : (t : ℕ) → row.token_expires_at ≡ some t → now < t
    pub rested :
        (t : ℕ) → row.last_used_at ≡ some t → t + pos_part config.min_interval_sec * second ≤ now
    pub below_quota :
        pos 0 <ℤ row.daily_image_quota
        → 1 ≤ pos_part row.daily_image_quota * pos_part (daily_usage_ratio config rt) / 1000000
        → row.today_used_date ≡ some (day_of now)
        → row.today_used_count
          < pos_part row.daily_image_quota * pos_part (daily_usage_ratio config rt) / 1000000
    pub own_key : l.lock_key ≡ key_of l.account_id
    pub held :
        entry l.lock_key (locks_of w')
        ≡ some (record { token = l.lock_token; until = expiry now time_to_live })

  abbrev Gives : World → Option Lease × World → Type 0
  Gives w (none, w') = Unit {0}
  Gives w (some l, w') = Leased w l w'

  -- The tests do not see what `fill` leaves out.
  abbrev passes : Account → Bool
  passes a =
      is_rested key_of proxy_key_of uuid proxy_token decrypt url_of day_of config rt now a
      && has_quota key_of proxy_key_of uuid proxy_token decrypt url_of day_of config rt now a

  passes-fill : (a : Account) → passes (fill (day_of now) a) ≡ passes a
  passes-fill a = elim (Option-cases a.today_used_date) [
    | inl e ↦ rw e refl
    | inr (day, e) ↦ elim (Bool-cases (day == day_of now)) [
      | inl f ↦ rw (e, f) refl
      | inr f ↦ rw (e, f) refl
    ]
  ]

  both : (a b : Bool) → (a && b) ≡ true → (a ≡ true) × (b ≡ true)
  both a b h = ground arith

  may_be_used :
      (row : Account)
      → is_dispatchable now row ≡ true
      → (row.deleted_at ≡ none)
        × ((row.status ≡ healthy) ⊎ (row.status ≡ warned))
        × ((t : ℕ) → row.cooldown_until ≡ some t → t ≤ now)
        × ((t : ℕ) → row.token_expires_at ≡ some t → now < t)
  may_be_used row h = (
    ground (arith, h),
    by_status row.status refl,
    λ t e. ground (arith, h, e),
    λ t e. ground (arith, h, e),
  )
    where
      by_status : (x : Status) → row.status ≡ x → (row.status ≡ healthy) ⊎ (row.status ≡ warned)
      by_status healthy e = inl e
      by_status warned e = inr e
      by_status throttled e = absurd (ground (arith, h, e))
      by_status suspicious e = absurd (ground (arith, h, e))
      by_status dead e = absurd (ground (arith, h, e))

  rested_since :
      (row : Account)
      → is_rested key_of proxy_key_of uuid proxy_token decrypt url_of day_of config rt now row
        ≡ true
      → (t : ℕ) → row.last_used_at ≡ some t
      → t + pos_part config.min_interval_sec * second ≤ now
  rested_since row h t e = ground (arith, h, e)

  quota_left :
      (row : Account)
      → has_quota key_of proxy_key_of uuid proxy_token decrypt url_of day_of config rt now row
        ≡ true
      → pos 0 <ℤ row.daily_image_quota
      → 1 ≤ pos_part row.daily_image_quota * pos_part (daily_usage_ratio config rt) / 1000000
      → row.today_used_date ≡ some (day_of now)
      → row.today_used_count
        < pos_part row.daily_image_quota * pos_part (daily_usage_ratio config rt) / 1000000
  quota_left row h quota positive today = ground (arith, h, quota, positive, today)

  given :
      (w : World) (id : ℕ) (a : Account) (r : Option Lease × World)
      → Candidate now (day_of now) w.accounts (id, a)
      → passes a ≡ true
      → Holds id r
      → Gives w r
  given w id a (none, w') c tests h = tt
  given w id a (some l, w') c tests h =
      let ok : passes c.row ≡ true = sym (passes-fill c.row) ∙ ap passes (sym c.filled) ∙ tests in
      let two =
        both
          (is_rested key_of proxy_key_of uuid proxy_token decrypt url_of day_of config rt now c.row)
          (has_quota key_of proxy_key_of uuid proxy_token decrypt url_of day_of config rt now c.row)
          ok in
      let may = may_be_used c.row c.dispatchable in
      record {
        row = c.row;
        in_table = rw h.0 c.in_table;
        live = may.0;
        well = may.1;
        cooled = may.2;
        unexpired = may.3;
        rested = rested_since c.row two.0;
        below_quota = quota_left c.row two.1;
        own_key = rw h.0 h.1;
        held = rw h.1 h.2;
      }

  or_next-Gives :
      (w : World) (next : World → Option Lease × World) (r : Option Lease × World)
      → Gives w r
      → ((v : World) → Gives w (next v))
      → Gives w (or_next next r)
  unfolding or_next
  or_next-Gives w next (none, v) h rest = rest v
  or_next-Gives w next (some l, v) h rest = h

  dispatch_from-Gives :
      (w : World) (t : Table Account) (v : World)
      → All (Candidate now (day_of now) w.accounts) t
      → Gives w (
          dispatch_from key_of proxy_key_of uuid proxy_token decrypt url_of day_of config rt now
            model t v)
  unfolding dispatch_from
  dispatch_from-Gives w [] v h = tt
  dispatch_from-Gives w ((id, a) ∷ t) v h =
      or_next-Gives w
        (dispatch_from key_of proxy_key_of uuid proxy_token decrypt url_of day_of config rt now
          model t)
        (if passes a
          then try_lock key_of proxy_key_of uuid proxy_token decrypt url_of day_of config rt now
              model id a v
          else (none, v))
        (tried (passes a) refl) (λ u. dispatch_from-Gives w t u h.1)
    where
      tried :
          (b : Bool)
          → passes a ≡ b
          → Gives w (
              if b
              then try_lock key_of proxy_key_of uuid proxy_token decrypt url_of day_of config rt now
                  model id a v
              else (none, v))
      tried false e = tt
      tried true e =
          given w id a
            (try_lock key_of proxy_key_of uuid proxy_token decrypt url_of day_of config rt now model
              id a v)
            h.0 e (try_lock-Holds id a v)

  abbrev pub Attempted : World → Attempt × World → Type 0
  Attempted w (got l, w') = Leased w l w'
  Attempted w (_, w') = Unit {0}

  pub try_dispatch_once-Attempted :
      (w : World)
      → Attempted w (
          try_dispatch_once key_of proxy_key_of uuid proxy_token decrypt url_of day_of config rt now
            model w)
  unfolding try_dispatch_once
  try_dispatch_once-Attempted w = elim (Bool-cases (fails w)) [
    | inl f ↦ rw f tt
    | inr f ↦ rw f (
        as_attempt
          (dispatch_from key_of proxy_key_of uuid proxy_token decrypt url_of day_of config rt now
            model (list_dispatchable now (day_of now) 30 w.accounts) (tick w))
          (dispatch_from-Gives w (list_dispatchable now (day_of now) 30 w.accounts) (tick w)
            (list_dispatchable-All now (day_of now) 30 w.accounts)))
  ]
    where
      as_attempt : (r : Option Lease × World) → Gives w r → Attempted w (attempt_of r)
      as_attempt (none, w') h = tt
      as_attempt (some l, w') h = h

-- Any lease that Dispatch returns is of an account that, at the time of some attempt and in the
-- world of then, was in the table, not deleted, healthy or warned, past its cooldown, with a token that
-- had not expired, at least the minimal interval after its last use, and, where its daily quota is
-- positive and the quota times the ratio does not truncate to 0, had been used less often on that day
-- than the truncated product; the lock of the account is held with the token of the lease for the
-- configured time. The names of account locks are taken to differ from those of proxy locks.
pub dispatch-Leased :
    (key_of proxy_key_of : ℕ → String) (uuid : ℕ → String) (proxy_token : ℕ → ℕ → String)
    (decrypt : String → Option String) (url_of : ℕ → Proxy → Option String) (day_of : ℕ → ℕ)
    (config : Config) (rt : RuntimeParams) (around : Surroundings) (model : String)
    (apart : (id j : ℕ) → str_eq (key_of id) (proxy_key_of j) ≡ false) (now : ℕ) (w : World)
    → FromAttempt
        (λ t v.
          try_dispatch_once key_of proxy_key_of uuid proxy_token decrypt url_of day_of config rt t
            model v)
        around
        (now + queue_wait rt)
        (λ t v l w'.
          Leased key_of proxy_key_of uuid proxy_token decrypt url_of day_of config rt t model apart
            v l w')
        (dispatch key_of proxy_key_of uuid proxy_token decrypt url_of day_of config rt around now
          model w)
unfolding dispatch
dispatch-Leased key_of proxy_key_of uuid proxy_token decrypt url_of day_of config rt around model
      apart now w =
    loop-FromAttempt
      (λ t v.
        try_dispatch_once key_of proxy_key_of uuid proxy_token decrypt url_of day_of config rt t
          model v)
      around (now + queue_wait rt)
      (λ t v l w'.
        Leased key_of proxy_key_of uuid proxy_token decrypt url_of day_of config rt t model apart v
          l w')
      (λ t v.
        got_lease t v
          (try_dispatch_once key_of proxy_key_of uuid proxy_token decrypt url_of day_of config rt t
            model v)
          (try_dispatch_once-Attempted key_of proxy_key_of uuid proxy_token decrypt url_of day_of
            config rt t model apart v))
      (suc (queue_wait rt)) 1 now min_backoff w
  where
    got_lease :
        (t : ℕ) (v : World) (r : Attempt × World)
        → Attempted key_of proxy_key_of uuid proxy_token decrypt url_of day_of config rt t model
            apart v r
        → Got
            (λ t v.
              try_dispatch_once key_of proxy_key_of uuid proxy_token decrypt url_of day_of config rt
                t model v)
            around
            (now + queue_wait rt)
            (λ t v l w'.
              Leased key_of proxy_key_of uuid proxy_token decrypt url_of day_of config rt t model
                apart v l w')
            t
            v
            r
    got_lease t v (got l, w') h = h
    got_lease t v (busy, w') h = tt
    got_lease t v (list_failed, w') h = tt
