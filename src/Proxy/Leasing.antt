-- ===== src/Proxy/Leasing.antt =====
-- Which proxy `Allocator.Lease` of internal/proxy/allocator.go hands out.
use gpt2api.Prelude.{
  ℕ, zero, suc, ◌≡◌, refl, ◌∙◌, sym, ap, String, Bool, true, false, Option, none, some, [], ◌∷◌,
  arith, take, ◌==◌, if◌then◌else◌, Bool-cases, inl, inr,
}
use gpt2api.Prelude.Int.{pos, ◌<ℤ◌}
use gpt2api.Db.Table.{Table, find, replace, find-replace_self, find-replace_ne}
use gpt2api.Db.Keys.{IsKeyed}
use gpt2api.Lock.{Store, Answer, done, not_acquired, driver_error, acquire, look_up, put, expiry}
use gpt2api.Lock.Holding.{succeeds}
use gpt2api.Proxy.{
  Proxy, World, Lease, Outcome, leased, direct, failure, is_usable, precedes, insert, candidates,
  list_runtime_candidates, fails_now, after_turn, touched, use_candidate, hand_over, round,
  lease_from, lease,
}

-- The row is usable and stands in the table.
abbrev pub Offered : Table Proxy → ℕ × Proxy → Type 0
Offered all (id, p) = (is_usable p ≡ true) × (find id all ≡ some p)

abbrev All : Table Proxy → Table Proxy → Type 0
All all [] = Unit {0}
All all (r ∷ t) = Offered all r × All all t

insert-All :
    (all : Table Proxy) (r : ℕ × Proxy) (t : Table Proxy)
    → Offered all r
    → All all t
    → All all (insert r t)
unfolding insert
insert-All all r [] h rest = (h, tt)
insert-All all r (x ∷ t) h (first, rest) = either (precedes r x) (insert-All all r t h rest)
  where
    either : (b : Bool) → All all (insert r t) → All all (if b then r ∷ x ∷ t else x ∷ insert r t)
    either true later = (h, (first, rest))
    either false later = (first, later)

-- Every row of a part of the table is a row of the table.
abbrev Part : Table Proxy → Table Proxy → Type 0
Part all [] = Unit {0}
Part all ((i, p) ∷ t) = (find i all ≡ some p) × Part all t

candidates-All : (all t : Table Proxy) → Part all t → All all (candidates t)
unfolding candidates
candidates-All all [] h = tt
candidates-All all ((i, p) ∷ t) (first, rest) = elim (Bool-cases (is_usable p)) [
  | inl e ↦ rw e (insert-All all (i, p) (candidates t) (e, first) (candidates-All all t rest))
  | inr e ↦ rw e (candidates-All all t rest)
]

take-All : (n : ℕ) (all t : Table Proxy) → All all t → All all (take n t)
take-All zero all t h = tt
take-All (suc n) all [] h = tt
take-All (suc n) all (x ∷ t) (first, rest) = (first, take-All n all t rest)

-- The table after a use of the row that was found.
abbrev marked : ℕ → ℕ → Table Proxy → Proxy → Table Proxy
marked now id t p = replace id (record p { last_used_at = some now }) t

-- What is read back after a use is written.
find-touched :
    (now id : ℕ) (p : Proxy) (t : Table Proxy)
    → find id t ≡ some p
    → p.deleted ≡ false
    → find id (touched now id t) ≡ some (record p { last_used_at = some now })
unfolding touched
find-touched now id p t found live = go (find id t) found
  where
    either :
        (b : Bool)
        → b ≡ false
        → find id (if b then t else marked now id t p) ≡ some (record p { last_used_at = some now })
    either true e = absurd (ground (arith, e))
    either false e = find-replace_self id (record p { last_used_at = some now }) p t found

    go :
        (o : Option Proxy)
        → o ≡ some p
        → find id (elim o as (λ _. Table Proxy) [
          | none ↦ t
          | some q ↦ if q.deleted then t else marked now id t q
        ])
          ≡ some (record p { last_used_at = some now })
    go none e = absurd (ground (arith, e))
    go (some q) e = let same : q ≡ p = ground (arith, e) in rw same (either p.deleted live)

find-touched_ne :
    (now id j : ℕ) (t : Table Proxy) → (j == id) ≡ false → find j (touched now id t) ≡ find j t
unfolding touched
find-touched_ne now id j t ne = go (find id t)
  where
    either : (p : Proxy) (b : Bool) → find j (if b then t else marked now id t p) ≡ find j t
    either p true = refl
    either p false = find-replace_ne j id (record p { last_used_at = some now }) t ne

    go :
        (o : Option Proxy)
        → find j (elim o as (λ _. Table Proxy) [
          | none ↦ t
          | some p ↦ if p.deleted then t else marked now id t p
        ])
          ≡ find j t
    go none = refl
    go (some p) = either p p.deleted

-- A lease of a usable proxy whose lock was free, and is taken now.
pub record Leased (key_of : ℕ → String) (token_of : ℕ → String) (now ttl : ℕ) (w : World)
    (l : Lease) (w' : World) : Type 0 where
  pub proxy : Proxy
  pub found : find l.proxy_id w.proxies ≡ some proxy
  pub enabled : proxy.enabled ≡ true
  pub live : proxy.deleted ≡ false
  pub well : pos 0 <ℤ proxy.health_score
  pub own_key : l.lock_key ≡ key_of l.proxy_id
  pub own_token : l.lock_token ≡ token_of l.proxy_id
  pub was_free : look_up now l.lock_key w.locks ≡ none
  pub now_taken :
      w'.locks ≡ put l.lock_key (record { token = l.lock_token; until = expiry now ttl }) w.locks
  pub now_used : find l.proxy_id w'.proxies ≡ some (record proxy { last_used_at = some now })
  pub others : (j : ℕ) → (j == l.proxy_id) ≡ false → find j w'.proxies ≡ find j w.proxies

module _ (key_of : ℕ → String) (url_of : ℕ → Proxy → Option String) (now ttl : ℕ)
    (token_of : ℕ → String) where
  -- Without a lease no proxy changes, and where the request goes direct no lock does.
  abbrev pub Ends : World → Outcome × World → Type 0
  Ends w (leased l, w') = Leased key_of token_of now ttl w l w'
  Ends w (direct, w') = (w'.locks ≡ w.locks) × (w'.proxies ≡ w.proxies)
  Ends w (failure, w') = w'.proxies ≡ w.proxies

  module _ (id : ℕ) (p : Proxy) (w : World) (o : Offered w.proxies (id, p))
      (free : look_up now (key_of id) w.locks ≡ none) where
    abbrev Taken : Store → Type 0
    Taken s = s ≡ put (key_of id) (record { token = token_of id; until = expiry now ttl }) w.locks

    hand_over-Ends :
        (url : String) (t : World) (b : Bool)
        → t.proxies ≡ w.proxies
        → Taken t.locks
        → Ends w (hand_over key_of url_of now ttl id (token_of id) url t b)
    unfolding hand_over
    hand_over-Ends url t true same taken = same
    hand_over-Ends url t false same taken = record {
      proxy = p;
      found = o.1;
      enabled = ground (arith, o.0);
      live = live;
      well = ground (arith, o.0);
      own_key = refl;
      own_token = refl;
      was_free = free;
      now_taken = taken;
      now_used = rw same (find-touched now id p w.proxies o.1 live);
      others = λ j ne. rw same (find-touched_ne now id j w.proxies ne);
    }
      where
        live : p.deleted ≡ false
        live = ground (arith, o.0)

    use_candidate-Ends :
        (t : World) (url : Option String)
        → t.proxies ≡ w.proxies
        → Taken t.locks
        → Ends w (use_candidate key_of url_of now ttl id (token_of id) t url)
    unfolding use_candidate
    use_candidate-Ends t none same taken = same
    use_candidate-Ends t (some url) same taken = hand_over-Ends url t (fails_now t) same taken

  lease_from-Ends :
      (t : Table Proxy) (w v : World)
      → All w.proxies t
      → v.proxies ≡ w.proxies
      → v.locks ≡ w.locks
      → Ends w (lease_from key_of url_of now ttl token_of t v)
  unfolding lease_from round
  lease_from-Ends [] w v h same locks = (locks, same)
  lease_from-Ends ((id, p) ∷ t) w v (first, rest) same locks =
      round-Ends (acquire (fails_now v) now (key_of id) (token_of id) ttl v.locks) refl
        (lease_from-Ends t w (after_turn v) rest same locks)
    where
      round-Ends :
          (r : Answer × Store)
          → acquire (fails_now v) now (key_of id) (token_of id) ttl v.locks ≡ r
          → Ends w (lease_from key_of url_of now ttl token_of t (after_turn v))
          → Ends w (
              round key_of url_of now ttl id p
                (token_of id)
                (lease_from key_of url_of now ttl token_of t)
                v
                r)
      round-Ends (done, locks') e later =
          let (free, stored) =
            succeeds (fails_now v) now (key_of id) (token_of id) ttl v.locks (ap (λ r. r.0) e) in
          use_candidate-Ends id p w first (rw (← locks) free)
            (record (after_turn v) { locks = locks' }) (url_of id p) same
            (ap (λ r. r.1) (sym e)
              ∙ stored
              ∙ ap (put (key_of id) (record { token = token_of id; until = expiry now ttl })) locks)
      round-Ends (not_acquired, locks') e later = later
      round-Ends (driver_error, locks') e later = same

  -- The rows of a table whose keys are distinct are found under their keys.
  table-Part :
      (n : ℕ) (all t : Table Proxy)
      → ((i : ℕ) (p : Proxy) → find i t ≡ some p → find i all ≡ some p)
      → IsKeyed n t
      → Part all t
  unfolding find
  table-Part n all [] h keyed = tt
  table-Part n all ((i, p) ∷ t) h (_, new, rest) =
      (h i p (ground arith), table-Part n all t (λ j q at. h j q (ground (arith, new, at))) rest)

  -- Where proxy keys are distinct, `Lease` hands out an enabled proxy of positive health that is not
  -- deleted and whose lock was free, takes that lock, sets the proxy's time of last use and changes
  -- no other proxy; or the request goes direct and no proxy or lock changes; or it fails and no proxy
  -- changes.
  pub lease-Ends :
      (n : ℕ) (w : World) → IsKeyed n w.proxies → Ends w (lease key_of url_of now ttl token_of w)
  unfolding lease
  lease-Ends n w keyed = elim (Bool-cases (fails_now w)) [
    | inl f ↦ rw f refl
    | inr f ↦ rw f (
        lease_from-Ends (list_runtime_candidates 64 w.proxies) w (after_turn w)
          (take-All 64 w.proxies (candidates w.proxies) (
            candidates-All w.proxies w.proxies
              (table-Part n w.proxies w.proxies (λ i p at. at) keyed)))
          refl refl)
  ]
