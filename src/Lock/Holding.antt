-- ===== src/Lock/Holding.antt =====
-- Who holds a lock of pkg/lock/redis_lock.go keeps it until it expires or is given up.
use gpt2api.Prelude.{
  ℕ, ◌+◌, ◌≡◌, refl, ◌∙◌, String, Bool, true, false, ◌&&◌, Option, none, some, List, [], ◌∷◌, ◌==◌,
  str_eq, eq_iff, if◌then◌else◌, arith, Bool-cases, Option-cases, inl, inr,
}
use gpt2api.Lock.{
  Entry, Store, is_live, look_up, put, delete, Answer, done, expiry, acquire, is_held_by, release,
  refresh,
}

-- The entry of a key.
unfoldable pub entry : String → Store → Option Entry
entry k [] = none
entry k ((j, e) ∷ t) = if str_eq k j then some e else entry k t

pub look_up-entry :
    (now : ℕ) (k : String) (s : Store) (e : Entry)
    → entry k s ≡ some e
    → is_live now e ≡ true
    → look_up now k s ≡ some e.token
unfolding look_up entry
look_up-entry now k [] e at live = ground arith
look_up-entry now k ((j, x) ∷ t) e at live = ground (arith, look_up-entry now k t e)

pub entry-put : (k : String) (e : Entry) (s : Store) → entry k (put k e s) ≡ some e
unfolding entry put
entry-put k e [] = rw ((eq_iff k k).1 refl) refl
entry-put k e ((j, x) ∷ t) = elim (Bool-cases (str_eq k j)) [
  | inl h ↦ rw h (rw h refl)
  | inr h ↦ rw h (rw h (entry-put k e t))
]

apart : (i k j : String) → str_eq i k ≡ false → str_eq k j ≡ true → str_eq i j ≡ false
apart i k j ne e = rw (← (eq_iff k j).0 e) ne

pub entry-put_other :
    (i k : String) (e : Entry) (s : Store) → str_eq i k ≡ false → entry i (put k e s) ≡ entry i s
unfolding entry put
entry-put_other i k e [] ne = rw ne refl
entry-put_other i k e ((j, x) ∷ t) ne = ground (arith, apart i k j ne, entry-put_other i k e t ne)

pub entry-delete_other :
    (i k : String) (s : Store) → str_eq i k ≡ false → entry i (delete k s) ≡ entry i s
unfolding entry delete
entry-delete_other i k [] ne = refl
entry-delete_other i k ((j, x) ∷ t) ne = ground (arith, apart i k j ne, entry-delete_other i k t ne)

-- A command of some client.
pub data Command : Type 0 where
  acquiring : String → String → ℕ → Command
  releasing : String → String → Command
  refreshing : String → String → ℕ → Command

-- A command at a time, and whether the driver fails.
pub record Event : Type 0 where
  pub now : ℕ
  pub fails : Bool
  pub command : Command

abbrev pub obey : Bool → ℕ → Command → Store → Answer × Store
obey fails now (acquiring key token ttl) s = acquire fails now key token ttl s
obey fails now (releasing key token) s = release fails now key token s
obey fails now (refreshing key token ttl) s = refresh fails now key token ttl s

abbrev pub answer : Event → Store → Answer × Store
answer v s = obey v.fails v.now v.command s

-- The command is the release or the refreshing of this lock by this token.
abbrev pub is_own : String → String → Command → Bool
is_own k token (acquiring key t ttl) = false
is_own k token (releasing key t) = str_eq k key && str_eq token t
is_own k token (refreshing key t ttl) = str_eq k key && str_eq token t

-- One more if the command acquired the lock.
abbrev won : String → Command → Answer → ℕ → ℕ
won k (acquiring key t ttl) done n = if str_eq k key then n + 1 else n
won k _ _ n = n

-- How often the lock `k` is acquired in a run of events.
pub wins : String → List Event → Store → ℕ
wins k [] s = 0
wins k (v ∷ rest) s = let (a, t) = answer v s in won k v.command a (wins k rest t)

-- The store after the events.
pub after : List Event → Store → Store
after [] s = s
after (v ∷ rest) s = after rest (answer v s).1

-- Every event is before the entry expires, and none gives the lock up.
abbrev pub Within : String → Entry → List Event → Type 0
Within k e [] = Unit {0}
Within k e (v ∷ rest) =
    (is_live v.now e ≡ true) × ((is_own k e.token v.command ≡ false) × Within k e rest)

module _ (k : String) (e : Entry) (s : Store) (at : entry k s ≡ some e) where
  held_here :
      (now : ℕ) (key token : String)
      → is_live now e ≡ true
      → (str_eq k key && str_eq e.token token) ≡ false
      → is_held_by now key token s ≡ true
      → str_eq k key ≡ false
  unfolding is_held_by
  held_here now key token live own held = elim (Bool-cases (str_eq k key)) [
    | inr ne ↦ ne
    | inl same ↦
        let name : k ≡ key = (eq_iff k key).0 same in
        let seen : look_up now key s ≡ some e.token =
          rw (← name) (look_up-entry now k s e at live) in
        ground (arith, seen)
  ]

  -- A key that is free to a command is another one.
  free_other :
      (now : ℕ) (key : String)
      → is_live now e ≡ true
      → look_up now key s ≡ none
      → str_eq k key ≡ false
  free_other now key live free = elim (Bool-cases (str_eq k key)) [
    | inr ne ↦ ne
    | inl same ↦
        let name : k ≡ key = (eq_iff k key).0 same in
        let seen : look_up now key s ≡ some e.token =
          rw (← name) (look_up-entry now k s e at live) in
        ground (arith, seen, free)
  ]

  pub acquire-entry :
      (now : ℕ) (key t : String) (ttl : ℕ)
      → is_live now e ≡ true
      → entry k (acquire false now key t ttl s).1 ≡ some e
  unfolding acquire
  acquire-entry now key t ttl live = elim (Option-cases (look_up now key s)) [
    | inl free ↦ rw free (
        entry-put_other k key (record { token = t; until = expiry now ttl }) s
          (free_other now key live free)
        ∙ at)
    | inr (other, taken) ↦ rw taken at
  ]

  -- Whatever is written under another key leaves the entry.
  kept :
      (b : Bool) (key : String) (x : Entry)
      → str_eq k key ≡ false
      → entry k (if b then delete key s else put key x s) ≡ some e
  kept true key x ne = entry-delete_other k key s ne ∙ at
  kept false key x ne = entry-put_other k key x s ne ∙ at

  -- One command keeps the entry.
  pub obey-entry :
      (fails : Bool) (now : ℕ) (c : Command)
      → is_live now e ≡ true
      → is_own k e.token c ≡ false
      → entry k (obey fails now c s).1 ≡ some e
  unfolding acquire release refresh
  obey-entry true now (acquiring key t ttl) live own = at
  obey-entry true now (releasing key t) live own = at
  obey-entry true now (refreshing key t ttl) live own = at
  obey-entry false now (acquiring key t ttl) live own = acquire-entry now key t ttl live
  obey-entry false now (releasing key t) live own = elim (Bool-cases (is_held_by now key t s)) [
    | inr free ↦ rw free at
    | inl held ↦ rw held (kept true key e (held_here now key t live own held))
  ]
  obey-entry false now (refreshing key t ttl) live own =
      elim (Bool-cases (is_held_by now key t s)) [
        | inr free ↦ rw free at
        | inl held ↦ rw held (
            kept (ttl == 0) key (record { token = t; until = some (now + ttl) })
              (held_here now key t live own held))
      ]

  -- The command does not win this lock.
  obey_loses :
      (fails : Bool) (now : ℕ) (c : Command) (n : ℕ)
      → is_live now e ≡ true
      → won k c (obey fails now c s).0 n ≡ n
  unfolding acquire release refresh
  obey_loses true now (acquiring key t ttl) n live = refl
  obey_loses true now (releasing key t) n live = refl
  obey_loses true now (refreshing key t ttl) n live = refl
  obey_loses false now (releasing key t) n live = refl
  obey_loses false now (refreshing key t ttl) n live = refl
  obey_loses false now (acquiring key t ttl) n live = elim (Option-cases (look_up now key s)) [
    | inl free ↦ rw free (rw (free_other now key live free) refl)
    | inr (other, taken) ↦ rw taken refl
  ]

-- While the entry of a lock lives and its holder neither releases nor refreshes it, the lock is
-- acquired by nobody and the entry stays, whatever other commands are sent and however they fail.
pub wins-zero :
    (k : String) (e : Entry) (events : List Event) (s : Store)
    → entry k s ≡ some e
    → Within k e events
    → (wins k events s ≡ 0) × (entry k (after events s) ≡ some e)
unfolding wins after
wins-zero k e [] s at within = (refl, at)
wins-zero k e (v ∷ rest) s at (live, (own, later)) =
    let next = obey-entry k e s at v.fails v.now v.command live own in
    let both = wins-zero k e rest (answer v s).1 next later in
    (obey_loses k e s at v.fails v.now v.command _ live ∙ both.0, both.1)

pub succeeds :
    (fails : Bool) (now : ℕ) (k token : String) (ttl : ℕ) (s : Store)
    → (acquire fails now k token ttl s).0 ≡ done
    → (look_up now k s ≡ none)
      × ((acquire fails now k token ttl s).1
          ≡ put k (record { token = token; until = expiry now ttl }) s)
unfolding acquire
succeeds fails now k token ttl s ok = (ground arith, ground arith)

-- An acquisition succeeds only on a lock that is free, and then no event before the expiry wins the
-- lock again, unless its holder releases or refreshes it.
pub acquire-wins :
    (fails : Bool) (now : ℕ) (k token : String) (ttl : ℕ) (s : Store) (events : List Event)
    → (acquire fails now k token ttl s).0 ≡ done
    → Within k (record { token = token; until = expiry now ttl }) events
    → (look_up now k s ≡ none) × (wins k events (acquire fails now k token ttl s).1 ≡ 0)
acquire-wins fails now k token ttl s events ok within =
    let e : Entry = record { token = token; until = expiry now ttl } in
    let (free, stored) = succeeds fails now k token ttl s ok in
    (free, rw stored (wins-zero k e events (put k e s) (entry-put k e s) within).0)
