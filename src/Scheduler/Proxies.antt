-- ===== src/Scheduler/Proxies.antt =====
-- The proxies that an attempt of internal/scheduler leases leave the locks of accounts alone.
use gpt2api.Prelude.{
  ℕ, ◌≡◌, refl, ◌∙◌, String, Bool, true, false, Option, none, some, [], ◌∷◌, str_eq, Bool-cases,
  inl, inr,
}
use gpt2api.Db.Table.{Table}
use gpt2api.Lock.{Store, Answer, done, not_acquired, driver_error, acquire}
use gpt2api.Lock.Holding.{entry}
use gpt2api.Lock.Others.{acquire-other, release-other}
use gpt2api.Proxy.{
  Proxy, World as Shared, Outcome, fails_now, after_turn, list_runtime_candidates, hand_over,
  use_candidate, round, lease_from, lease,
}

module _ (key_of : ℕ → String) (url_of : ℕ → Proxy → Option String) (now ttl : ℕ) (k : String)
    (ne : (id : ℕ) → str_eq k (key_of id) ≡ false) where
  hand_over-entry :
      (id : ℕ) (token url : String) (w : Shared) (b : Bool)
      → entry k ((hand_over key_of url_of now ttl id token url w b).1).locks ≡ entry k w.locks
  unfolding hand_over
  hand_over-entry id token url w true =
      release-other k (key_of id) (ne id) (fails_now (after_turn w)) now token w.locks
  hand_over-entry id token url w false = refl

  use_candidate-entry :
      (id : ℕ) (token : String) (w : Shared) (o : Option String)
      → entry k ((use_candidate key_of url_of now ttl id token w o).1).locks ≡ entry k w.locks
  unfolding use_candidate
  use_candidate-entry id token w none =
      release-other k (key_of id) (ne id) (fails_now w) now token w.locks
  use_candidate-entry id token w (some url) = hand_over-entry id token url w (fails_now w)

  round-entry :
      (id : ℕ) (p : Proxy) (token : String) (next : Shared → Outcome × Shared) (w : Shared)
      (r : Answer × Store)
      → entry k r.1 ≡ entry k w.locks
      → ((v : Shared) → entry k ((next v).1).locks ≡ entry k v.locks)
      → entry k ((round key_of url_of now ttl id p token next w r).1).locks ≡ entry k w.locks
  unfolding round
  round-entry id p token next w (done, locks) same rest =
      use_candidate-entry id token (record (after_turn w) { locks = locks }) (url_of id p) ∙ same
  round-entry id p token next w (not_acquired, locks) same rest = rest (after_turn w)
  round-entry id p token next w (driver_error, locks) same rest = refl

  lease_from-entry :
      (token_of : ℕ → String) (t : Table Proxy) (w : Shared)
      → entry k ((lease_from key_of url_of now ttl token_of t w).1).locks ≡ entry k w.locks
  unfolding lease_from
  lease_from-entry token_of [] w = refl
  lease_from-entry token_of ((id, p) ∷ t) w =
      round-entry id p (token_of id) (lease_from key_of url_of now ttl token_of t) w
        (acquire (fails_now w) now (key_of id) (token_of id) ttl w.locks)
        (acquire-other k (key_of id) (ne id) (fails_now w) now (token_of id) ttl w.locks)
        (λ v. lease_from-entry token_of t v)

  -- The lease of a proxy leaves the entry of every other key.
  pub lease-entry :
      (token_of : ℕ → String) (w : Shared)
      → entry k ((lease key_of url_of now ttl token_of w).1).locks ≡ entry k w.locks
  unfolding lease
  lease-entry token_of w = elim (Bool-cases (fails_now w)) [
    | inl f ↦ rw f refl
    | inr f ↦ rw f (lease_from-entry token_of (list_runtime_candidates 64 w.proxies) (after_turn w))
  ]
