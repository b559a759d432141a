-- ===== src/Scheduler/Exclusive.antt =====
-- An account whose lock is held is not given again by internal/scheduler/scheduler.go, and a release
-- gives its lock back.
use gpt2api.Prelude.{
  ℕ, ◌≡◌, refl, sym, ap, ◌∙◌, String, Bool, true, false, ◌&&◌, Option, none, some, [], ◌∷◌, str_eq,
  eq_iff, if◌then◌else◌, Bool-cases, inl, inr,
}
use gpt2api.Db.Table.{Table}
use gpt2api.Lock.{Entry, Store, Answer, done, not_acquired, driver_error, is_live, look_up, acquire}
use gpt2api.Lock.Holding.{entry}
use gpt2api.Lock.Others.{acquire-other, release-other}
use gpt2api.Account.{Account, list_dispatchable}
use gpt2api.Proxy.{
  Proxy, World as Shared, Outcome as ProxyOutcome, leased, direct, failure, lease as lease_proxy,
}
use gpt2api.Scheduler.{World, Config, RuntimeParams, Lease, fails, tick}
use gpt2api.Scheduler.Attempt.{
  is_runtime_proxy_model, attempted, or_next, Attempt, got, busy, list_failed, attempt_of,
  device_of, session_of, without_proxy, with_proxy, with_token, after_acquire, try_lock, is_rested,
  has_quota, dispatch_from, try_dispatch_once, ttl,
}
use gpt2api.Scheduler.Leasing.{Holds, try_lock-Holds, Attempted, try_dispatch_once-Attempted}
use gpt2api.Scheduler.Proxies.{lease-entry}
use gpt2api.Scheduler.Locks.{locks_of, device_of-locks, session_of-locks, binding_route-locks}
use gpt2api.Lock.Holding.{look_up-entry}

module _ (key_of proxy_key_of : ℕ → String) (uuid : ℕ → String) (proxy_token : ℕ → ℕ → String)
    (decrypt : String → Option String) (url_of : ℕ → Proxy → Option String) (day_of : ℕ → ℕ)
    (config : Config) (rt : RuntimeParams) (now : ℕ) (model : String)
    (all_apart : (id j : ℕ) → str_eq (key_of id) (proxy_key_of j) ≡ false) (held : ℕ) where
  abbrev k : String
  k = key_of held

  apart : (j : ℕ) → str_eq k (proxy_key_of j) ≡ false
  apart j = all_apart held j

  abbrev time_to_live : ℕ
  time_to_live = ttl key_of proxy_key_of uuid proxy_token decrypt url_of day_of config rt

  abbrev entry_of : {A : Type 0} → A × World → Option Entry
  entry_of r = entry k (locks_of r.1)

  attempted-entry :
      (l : Lease) (w : World) (r : ProxyOutcome × Shared)
      → str_eq k l.lock_key ≡ false
      → entry_of (attempted now l w r) ≡ entry k (r.1).locks
  unfolding attempted
  attempted-entry l w (leased p, shared) ne = refl
  attempted-entry l w (direct, shared) ne = refl
  attempted-entry l w (failure, shared) ne =
      release-other k l.lock_key ne (fails (record w { shared = shared })) now l.lock_token
        shared.locks

  with_proxy-entry :
      (id : ℕ) (l : Lease) (w : World)
      → str_eq k l.lock_key ≡ false
      → entry_of (
          with_proxy key_of proxy_key_of uuid proxy_token decrypt url_of day_of config rt now model
            id l w)
        ≡ entry k (locks_of w)
  unfolding with_proxy
  with_proxy-entry id l w ne = elim (Bool-cases (is_runtime_proxy_model model)) [
    | inl e ↦ rw e (
        attempted-entry l w
          (lease_proxy proxy_key_of url_of now time_to_live (proxy_token w.shared.turn) w.shared) ne
        ∙ lease-entry proxy_key_of url_of now time_to_live k apart (proxy_token w.shared.turn)
            w.shared)
    | inr e ↦ rw e (
        ap (entry k) (
          binding_route-locks key_of proxy_key_of uuid proxy_token decrypt url_of day_of config rt
            id w))
  ]

  with_token-entry :
      (id : ℕ) (a : Account) (token : String) (o : Option String) (w : World)
      → str_eq k (key_of id) ≡ false
      → entry_of (
          with_token key_of proxy_key_of uuid proxy_token decrypt url_of day_of config rt now model
            id a token o w)
        ≡ entry k (locks_of w)
  unfolding with_token
  with_token-entry id a token none w ne =
      release-other k (key_of id) ne (fails w) now token (locks_of w)
  with_token-entry id a token (some auth) w ne =
      let device : (String × String) × World =
        device_of key_of proxy_key_of uuid proxy_token decrypt url_of day_of config rt id a w in
      let session : (String × String) × World =
        session_of key_of proxy_key_of uuid proxy_token decrypt url_of day_of config rt id a
          device.1 in
      with_proxy-entry id
        (without_proxy key_of proxy_key_of uuid proxy_token decrypt url_of day_of config rt id a
          token auth device.0 session.0)
        session.1 ne
      ∙ ap (entry k) (
          session_of-locks key_of proxy_key_of uuid proxy_token decrypt url_of day_of config rt id a
            device.1
          ∙ device_of-locks key_of proxy_key_of uuid proxy_token decrypt url_of day_of config rt id
              a w)

  after_acquire-entry :
      (id : ℕ) (a : Account) (token : String) (w : World) (r : Answer × Store)
      → str_eq k (key_of id) ≡ false
      → entry k r.1 ≡ entry k (locks_of w)
      → entry_of (
          after_acquire key_of proxy_key_of uuid proxy_token decrypt url_of day_of config rt now
            model id a token w r)
        ≡ entry k (locks_of w)
  unfolding after_acquire
  after_acquire-entry id a token w (done, locks) ne same =
      with_token-entry id a token (decrypt a.auth_token_enc) _ ne ∙ same
  after_acquire-entry id a token w (not_acquired, locks) ne same = refl
  after_acquire-entry id a token w (driver_error, locks) ne same = refl

  try_lock-other :
      (id : ℕ) (a : Account) (w : World)
      → str_eq k (key_of id) ≡ false
      → entry_of (
          try_lock key_of proxy_key_of uuid proxy_token decrypt url_of day_of config rt now model id
            a w)
        ≡ entry k (locks_of w)
  unfolding try_lock
  try_lock-other id a w ne =
      after_acquire-entry id a (uuid w.shared.turn) w
        (acquire (fails w) now (key_of id) (uuid w.shared.turn) time_to_live (locks_of w)) ne
        (acquire-other k (key_of id) ne (fails w) now (uuid w.shared.turn) time_to_live
          (locks_of w))

  module _ (e : Entry) (live : is_live now e ≡ true) where
    -- The lock is as it was, and a lease is that of another lock.
    abbrev Spared : Option Lease × World → Type 0
    Spared (none, w') = entry k (locks_of w') ≡ some e
    Spared (some l, w') = (entry k (locks_of w') ≡ some e) × (str_eq k l.lock_key ≡ false)

    try_lock-Spared :
        (id : ℕ) (a : Account) (w : World)
        → entry k (locks_of w) ≡ some e
        → Spared (
            try_lock key_of proxy_key_of uuid proxy_token decrypt url_of day_of config rt now model
              id a w)
    unfolding try_lock after_acquire acquire
    try_lock-Spared id a w at = elim (Bool-cases (str_eq k (key_of id))) [
      | inr ne ↦
          onto
            (try_lock key_of proxy_key_of uuid proxy_token decrypt url_of day_of config rt now model
              id a w)
            (try_lock-other id a w ne ∙ at)
            (try_lock-Holds key_of proxy_key_of uuid proxy_token decrypt url_of day_of config rt now
              model all_apart id a w)
            ne
      | inl same ↦
          let name : k ≡ key_of id = (eq_iff k (key_of id)).0 same in
          let seen : look_up now (key_of id) (locks_of w) ≡ some e.token =
            rw (← name) (look_up-entry now k (locks_of w) e at live) in
          elim (Bool-cases (fails w)) [ inl f ↦ rw f at | inr f ↦ rw (f, seen) at ]
    ]
      where
        onto :
            (r : Option Lease × World)
            → entry_of r ≡ some e
            → Holds key_of proxy_key_of uuid proxy_token decrypt url_of day_of config rt now model
                all_apart id r
            → str_eq k (key_of id) ≡ false
            → Spared r
        onto (none, w') kept h ne = kept
        onto (some l, w') kept h ne = (kept, rw h.1 ne)

    or_next-Spared :
        (next : World → Option Lease × World) (r : Option Lease × World)
        → Spared r
        → ((v : World) → entry k (locks_of v) ≡ some e → Spared (next v))
        → Spared (or_next next r)
    unfolding or_next
    or_next-Spared next (none, v) h rest = rest v h
    or_next-Spared next (some l, v) h rest = h

    dispatch_from-Spared :
        (t : Table Account) (v : World)
        → entry k (locks_of v) ≡ some e
        → Spared (
            dispatch_from key_of proxy_key_of uuid proxy_token decrypt url_of day_of config rt now
              model t v)
    unfolding dispatch_from
    dispatch_from-Spared [] v at = at
    dispatch_from-Spared ((id, a) ∷ t) v at =
        or_next-Spared
          (dispatch_from key_of proxy_key_of uuid proxy_token decrypt url_of day_of config rt now
            model t)
          (if is_rested key_of proxy_key_of uuid proxy_token decrypt url_of day_of config rt now a
              && has_quota key_of proxy_key_of uuid proxy_token decrypt url_of day_of config rt now
                  a
            then try_lock key_of proxy_key_of uuid proxy_token decrypt url_of day_of config rt now
                model id a v
            else (none, v))
          (tried (
            is_rested key_of proxy_key_of uuid proxy_token decrypt url_of day_of config rt now a
            && has_quota key_of proxy_key_of uuid proxy_token decrypt url_of day_of config rt now
                a))
          (λ u. dispatch_from-Spared t u)
      where
        tried :
            (b : Bool)
            → Spared (
                if b
                then try_lock key_of proxy_key_of uuid proxy_token decrypt url_of day_of config rt
                    now model id a v
                else (none, v))
        tried false = at
        tried true = try_lock-Spared id a v at

    abbrev AttemptSpared : Attempt × World → Type 0
    AttemptSpared (got l, w') = Spared (some l, w')
    AttemptSpared (_, w') = entry k (locks_of w') ≡ some e

    spared :
        (w : World)
        → entry k (locks_of w) ≡ some e
        → AttemptSpared (
            try_dispatch_once key_of proxy_key_of uuid proxy_token decrypt url_of day_of config rt
              now model w)
    unfolding try_dispatch_once
    spared w at = elim (Bool-cases (fails w)) [
      | inl f ↦ rw f at
      | inr f ↦ rw f (
          as_attempt
            (dispatch_from key_of proxy_key_of uuid proxy_token decrypt url_of day_of config rt now
              model (list_dispatchable now (day_of now) 30 w.accounts) (tick w))
            (dispatch_from-Spared (list_dispatchable now (day_of now) 30 w.accounts) (tick w) at))
    ]
      where
        as_attempt : (r : Option Lease × World) → Spared r → AttemptSpared (attempt_of r)
        as_attempt (none, w') h = h
        as_attempt (some l, w') h = h

    -- What an attempt leaves of a lock that is held.
    abbrev pub Excludes : Attempt × World → Type 0
    Excludes (got l, w') = (entry k (locks_of w') ≡ some e) × (¬ l.account_id ≡ held)
    Excludes (_, w') = entry k (locks_of w') ≡ some e

    -- An attempt to lease an account while the lock of the account `held` is taken and has not
    -- expired leaves that lock as it is, and gives another account if any; the names of account locks
    -- are taken to differ from those of proxy locks.
    pub try_dispatch_once-Excludes :
        (w : World)
        → entry k (locks_of w) ≡ some e
        → Excludes (
            try_dispatch_once key_of proxy_key_of uuid proxy_token decrypt url_of day_of config rt
              now model w)
    try_dispatch_once-Excludes w at =
        excluded
          (try_dispatch_once key_of proxy_key_of uuid proxy_token decrypt url_of day_of config rt
            now model w)
          (try_dispatch_once-Attempted key_of proxy_key_of uuid proxy_token decrypt url_of day_of
            config rt now model all_apart w)
          (spared w at)
      where
        excluded :
            (r : Attempt × World)
            → Attempted key_of proxy_key_of uuid proxy_token decrypt url_of day_of config rt now
                model all_apart w r
            → AttemptSpared r
            → Excludes r
        excluded (busy, w') h s = s
        excluded (list_failed, w') h s = s
        excluded (got l, w') h s = (
          s.0,
          λ same.
              let own : k ≡ l.lock_key = sym (h.own_key ∙ ap key_of same) in
              let yes_key : str_eq k l.lock_key ≡ true = (eq_iff k l.lock_key).1 own in
              absurd (cc (yes_key, s.1)),
        )
