-- ===== src/Scheduler/Locks.antt =====
-- The statements of an attempt of internal/scheduler/scheduler.go leave the locks.
use gpt2api.Prelude.{
  ℕ, ◌≡◌, refl, ◌∙◌, String, Bool, true, false, Option, none, some, str_eq, Bool-cases, inl, inr,
}
use gpt2api.Db.Table.{Table, find}
use gpt2api.Lock.{Store}
use gpt2api.Account.{Account, with_device, with_session}
use gpt2api.Proxy.{Proxy}
use gpt2api.Scheduler.{World, Config, RuntimeParams, fails, tick, write}
use gpt2api.Scheduler.Attempt.{
  read_back, ensure_device_id, ensure_session_id, kept_id, device_of, session_of, bound_proxy,
  binding_route,
}

abbrev pub locks_of : World → Store
locks_of w = w.shared.locks

-- The statements on accounts leave the locks.
write-locks : (f : Table Account → Table Account) (w : World) → locks_of (write f w).1 ≡ locks_of w
write-locks f w = elim (Bool-cases (fails w)) [ inl e ↦ rw e refl | inr e ↦ rw e refl ]

read_back-locks :
    (field : Account → String) (id : ℕ) (r : Bool × World)
    → locks_of (read_back field id r).1 ≡ locks_of r.1
read_back-locks field id (true, w) = refl
read_back-locks field id (false, w) = elim (Bool-cases (fails w)) [
  | inl e ↦ rw e refl
  | inr e ↦ rw e refl
]

kept_id-locks :
    (old gen : String) (r : Option String × World) → locks_of (kept_id old gen r).1 ≡ locks_of r.1
kept_id-locks old gen (none, w) = refl
kept_id-locks old gen (some fixed, w) = elim (Bool-cases (str_eq fixed "")) [
  | inl e ↦ rw e refl
  | inr e ↦ rw e refl
]

module _ (key_of proxy_key_of : ℕ → String) (uuid : ℕ → String) (proxy_token : ℕ → ℕ → String)
    (decrypt : String → Option String) (url_of : ℕ → Proxy → Option String) (day_of : ℕ → ℕ)
    (config : Config) (rt : RuntimeParams) where
  pub device_of-locks :
      (id : ℕ) (a : Account) (w : World)
      → locks_of
          (device_of key_of proxy_key_of uuid proxy_token decrypt url_of day_of config rt id a w).1
        ≡ locks_of w
  device_of-locks id a w = elim (Bool-cases (str_eq a.oai_device_id "")) [
    | inr e ↦ rw e refl
    | inl e ↦ rw e (
        kept_id-locks a.oai_device_id (uuid w.shared.turn)
          (ensure_device_id id (uuid w.shared.turn) w)
        ∙ read_back-locks (λ a. a.oai_device_id) id (write (with_device (uuid w.shared.turn) id) w)
        ∙ write-locks (with_device (uuid w.shared.turn) id) w)
  ]

  pub session_of-locks :
      (id : ℕ) (a : Account) (w : World)
      → locks_of
          (session_of key_of proxy_key_of uuid proxy_token decrypt url_of day_of config rt id a w).1
        ≡ locks_of w
  session_of-locks id a w = elim (Bool-cases (str_eq a.oai_session_id "")) [
    | inr e ↦ rw e refl
    | inl e ↦ rw e (
        kept_id-locks a.oai_session_id (uuid w.shared.turn)
          (ensure_session_id id (uuid w.shared.turn) w)
        ∙ read_back-locks (λ a. a.oai_session_id) id
            (write (with_session (uuid w.shared.turn) id) w)
        ∙ write-locks (with_session (uuid w.shared.turn) id) w)
  ]

  bound_proxy-locks :
      (id : ℕ) (w : World)
      → locks_of
          (bound_proxy key_of proxy_key_of uuid proxy_token decrypt url_of day_of config rt id w).1
        ≡ locks_of w
  bound_proxy-locks id w = elim (Bool-cases (fails w)) [ inl e ↦ rw e refl | inr e ↦ rw e refl ]

  pub binding_route-locks :
      (id : ℕ) (w : World)
      → locks_of
          (binding_route key_of proxy_key_of uuid proxy_token decrypt url_of day_of config rt id
            w).1
        ≡ locks_of w
  binding_route-locks id w = elim (Bool-cases (fails w)) [
    | inl e ↦ rw e (bound_proxy-locks 0 (tick w))
    | inr e ↦ rw e (onto (find id w.bindings))
  ]
    where
      onto :
          (o : Option ℕ)
          → locks_of
              (elim o as (λ _. (ℕ × String) × World) [
                | none ↦ ((0, ""), tick w)
                | some proxy_id ↦
                    bound_proxy key_of proxy_key_of uuid proxy_token decrypt url_of day_of config rt
                      proxy_id
                      (tick w)
              ]).1
            ≡ locks_of w
      onto none = refl
      onto (some proxy_id) = bound_proxy-locks proxy_id (tick w)
