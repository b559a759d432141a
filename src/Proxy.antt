-- ===== src/Proxy.antt =====
-- internal/proxy/allocator.go: the lease of a proxy for one request, with its queries in
-- internal/proxy/dao.go. Every query and every Redis command takes a turn and may fail there, having
-- done nothing; a call sees one time. `key_of` is the name of a proxy's lock, `token_of` the random
-- token drawn for a candidate, `url_of` the URL with the password decrypted, or none.
pub mod Leasing
mod Tests
use gpt2api.Prelude.{
  ℕ, zero, suc, ◌+◌, String, Bool, true, false, Option, none, some, List, [], ◌∷◌, ◌==◌, ◌&&◌, ltb,
  not, take, if◌then◌else◌, str_eq,
}
use gpt2api.Prelude.Int.{ℤ, pos, ltb_ℤ, leb_ℤ, ◌-ℤ◌}
use gpt2api.Db.Table.{Table, find, replace}
use gpt2api.Lock.{Store, Answer, done, not_acquired, driver_error, acquire, release}

pub record Proxy : Type 0 where
  pub enabled : Bool
  pub deleted : Bool
  pub health_score : ℤ
  pub last_used_at : Option ℕ
  pub last_error : String

pub record World : Type 0 where
  pub proxies : Table Proxy
  pub locks : Store
  pub turn : ℕ
  pub faulty : ℕ → Bool

pub record Lease : Type 0 where
  pub proxy_id : ℕ
  pub proxy_url : String
  pub lock_key : String
  pub lock_token : String

-- A lease, none for a direct connection, or an error.
pub data Outcome : Type 0 where
  leased : Lease → Outcome
  direct : Outcome
  failure : Outcome

-- The condition of `ListRuntimeCandidates`.
abbrev pub is_usable : Proxy → Bool
is_usable p = not p.deleted && (p.enabled && ltb_ℤ (pos 0) p.health_score)

-- Its order, by health, then never used before used, then the least recently used, then the key.
abbrev pub used_before : ℕ → Option ℕ → ℕ → Option ℕ → Bool
used_before i none j none = ltb i j
used_before i none j (some b) = true
used_before i (some a) j none = false
used_before i (some a) j (some b) = if a == b then ltb i j else ltb a b

abbrev pub precedes : ℕ × Proxy → ℕ × Proxy → Bool
precedes (i, p) (j, q) =
    if ltb_ℤ q.health_score p.health_score
    then true
    else if ltb_ℤ p.health_score q.health_score
    then false
    else used_before i p.last_used_at j q.last_used_at

pub insert : ℕ × Proxy → Table Proxy → Table Proxy
insert r [] = r ∷ []
insert r (x ∷ t) = let rest = insert r t in if precedes r x then r ∷ x ∷ t else x ∷ rest

pub candidates : Table Proxy → Table Proxy
candidates [] = []
candidates ((i, p) ∷ t) =
    let rest = candidates t in if is_usable p then insert (i, p) rest else rest

-- `DAO.ListRuntimeCandidates`
abbrev pub list_runtime_candidates : ℕ → Table Proxy → Table Proxy
list_runtime_candidates limit t = take (if limit == 0 then 64 else limit) (candidates t)

abbrev pub fails_now : World → Bool
fails_now w = w.faulty w.turn

abbrev pub after_turn : World → World
after_turn w = record w { turn = w.turn + 1 }

-- `DAO.TouchLastUsed`
pub touched : ℕ → ℕ → Table Proxy → Table Proxy
touched now id t = elim (find id t) [
  | none ↦ t
  | some p ↦ if p.deleted then t else replace id (record p { last_used_at = some now }) t
]

-- `DAO.DeductHealthOnRuntimeFailure`
pub deducted : ℤ → String → ℕ → Table Proxy → Table Proxy
deducted deduct summary id t =
    let n : ℤ = if leb_ℤ deduct (pos 0) then pos 20 else deduct in
    elim (find id t) [
      | none ↦ t
      | some p ↦
          if p.deleted
          then t
          else replace id
              (record p {
                health_score = if ltb_ℤ n p.health_score then p.health_score -ℤ n else pos 0;
                last_error = summary;
              })
              t
    ]

-- `_ = a.lock.Release(…)`, whose error is dropped.
abbrev pub give_back : ℕ → String → String → World → World
give_back now key token w = record w {
  locks = (release (fails_now w) now key token w.locks).1;
  turn = w.turn + 1;
}

module _ (key_of : ℕ → String) (url_of : ℕ → Proxy → Option String) (now ttl : ℕ) where
  -- The end of a round whose proxy has a URL, by whether `TouchLastUsed` fails.
  unfoldable pub hand_over : ℕ → String → String → World → Bool → Outcome × World
  hand_over id token url w true = (failure, give_back now (key_of id) token (after_turn w))
  hand_over id token url w false = (
    leased (record { proxy_id = id; proxy_url = url; lock_key = key_of id; lock_token = token }),
    record (after_turn w) { proxies = touched now id w.proxies },
  )

  -- What follows the acquisition of a candidate's lock in `Lease`, by the URL.
  unfoldable pub use_candidate : ℕ → String → World → Option String → Outcome × World
  use_candidate id token w none = (failure, give_back now (key_of id) token w)
  use_candidate id token w (some url) = hand_over id token url w (fails_now w)

  -- The end of one round, by the answer to the acquisition; `next` is the rest of the loop.
  unfoldable pub round :
      ℕ → Proxy → String → (World → Outcome × World) → World → Answer × Store → Outcome × World
  round id p token next w (done, locks) =
      use_candidate id token (record (after_turn w) { locks = locks }) (url_of id p)
  round id p token next w (not_acquired, locks) = next (after_turn w)
  round id p token next w (driver_error, locks) = (failure, after_turn w)

  -- The loop of `Lease`.
  unfoldable pub lease_from : (ℕ → String) → Table Proxy → World → Outcome × World
  lease_from token_of [] w = (direct, w)
  lease_from token_of ((id, p) ∷ rest) w =
      round id p (token_of id) (lease_from token_of rest) w
        (acquire (fails_now w) now (key_of id) (token_of id) ttl w.locks)

  -- `Allocator.Lease`
  unfoldable pub lease : (ℕ → String) → World → Outcome × World
  lease token_of w =
      if fails_now w
      then (failure, after_turn w)
      else lease_from token_of (list_runtime_candidates 64 w.proxies) (after_turn w)

-- A lease with its two `sync.Once`: the release and the report of a failure have been made.
pub record Held : Type 0 where
  pub lease : Lease
  pub released : Bool
  pub reported : Bool

-- `Lease.Release`
unfoldable pub release_lease : ℕ → Held → World → Held × World
release_lease now h w =
    if str_eq h.lease.lock_key ""
    then (h, w)
    else if str_eq h.lease.lock_token ""
    then (h, w)
    else if h.released
    then (h, w)
    else (
      record h { released = true },
      record w {
        locks = (release (fails_now w) now h.lease.lock_key h.lease.lock_token w.locks).1;
        turn = w.turn + 1;
      },
    )

-- `Lease.MarkFailure`; `trim` is strings.TrimSpace and `cut` keeps the first 255 bytes.
pub mark_failure : (String → String) → (String → String) → String → Held → World → Held × World
mark_failure trim cut summary h w =
    let short : String = trim summary in
    if h.lease.proxy_id == 0 then (h, w) else if h.reported then (h, w) else (
      record h { reported = true },
      if fails_now w then after_turn w else record (after_turn w) {
        proxies =
            deducted (pos 20) (if str_eq short "" then "runtime proxy failure" else cut short)
              h.lease.proxy_id w.proxies;
      },
    )
