-- ===== src/Lock.antt =====
-- pkg/lock/redis_lock.go: a lock is a Redis key that holds the token of its holder and may expire.
-- Times and ttls are in one unit. `fails` says that the driver reports an error: the command did nothing.
pub mod Holding
pub mod Others
mod Tests
use gpt2api.Prelude.{
  ℕ, ◌+◌, String, Bool, true, false, Option, none, some, List, [], ◌∷◌, ◌==◌, ltb, str_eq,
  if◌then◌else◌,
}

pub record Entry : Type 0 where
  pub token : String
  pub until : Option ℕ

abbrev pub Store : Type 0
Store = List (String × Entry)

-- The entry is there at a time.
abbrev pub is_live : ℕ → Entry → Bool
is_live now e = elim e.until [ none ↦ true | some at ↦ ltb now at ]

-- GET
unfoldable pub look_up : ℕ → String → Store → Option String
look_up now k [] = none
look_up now k ((j, e) ∷ t) =
    if str_eq k j then (if is_live now e then some e.token else none) else look_up now k t

-- SET
unfoldable pub put : String → Entry → Store → Store
put k e [] = (k, e) ∷ []
put k e ((j, x) ∷ t) = if str_eq k j then (j, e) ∷ t else (j, x) ∷ put k e t

-- DEL
unfoldable pub delete : String → Store → Store
delete k [] = []
delete k ((j, x) ∷ t) = let rest = delete k t in if str_eq k j then rest else (j, x) ∷ rest

pub data Answer : Type 0 where
  done : Answer
  not_acquired : Answer
  driver_error : Answer

-- go-redis sends SET NX without an expiry for a ttl of 0.
abbrev pub expiry : ℕ → ℕ → Option ℕ
expiry now ttl = if ttl == 0 then none else some (now + ttl)

-- `RedisLock.Acquire`
unfoldable pub acquire : Bool → ℕ → String → String → ℕ → Store → Answer × Store
acquire fails now key token ttl s = if fails then (driver_error, s) else elim (look_up now key s) [
  | some other ↦ (not_acquired, s)
  | none ↦ (done, put key (record { token = token; until = expiry now ttl }) s)
]

-- The test of both scripts, `redis.call("GET", KEYS[1]) == ARGV[1]`.
unfoldable pub is_held_by : ℕ → String → String → Store → Bool
is_held_by now key token s = elim (look_up now key s) [ none ↦ false | some t ↦ str_eq t token ]

-- `RedisLock.Release`
unfoldable pub release : Bool → ℕ → String → String → Store → Answer × Store
release fails now key token s =
    if fails
    then (driver_error, s)
    else if is_held_by now key token s
    then (done, delete key s)
    else (done, s)

-- `RedisLock.Refresh`; PEXPIRE with 0 deletes the key.
unfoldable pub refresh : Bool → ℕ → String → String → ℕ → Store → Answer × Store
refresh fails now key token ttl s =
    if fails
    then (driver_error, s)
    else if is_held_by now key token s
    then (
      done,
      if ttl == 0
          then delete key s
          else put key (record { token = token; until = some (now + ttl) }) s,
    )
    else (done, s)
