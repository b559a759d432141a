-- ===== src/RateLimit/Window.antt =====
-- How much the token bucket of pkg/ratelimit/token_bucket.go lets through in a stretch of time.
use gpt2api.Prelude.{
  ℕ, zero, suc, ◌+◌, ◌-◌, ◌*◌, ◌≤◌, ◌≡◌, refl, ap, ◌∙◌, String, Bool, true, false, Option, none,
  some, List, [], ◌∷◌, arith, ltb, str_eq, eq_iff, if◌then◌else◌, Bool-cases, inl, inr,
}
use gpt2api.Prelude.Int.{ℤ, pos, leb_ℤ, ◌+ℤ◌, ◌-ℤ◌}
use gpt2api.RateLimit.{
  Bucket, Store, look_up, put, unit, min_ℤ, filled, taken, bucket_at, Answer, allowed, answered,
  allow,
}

-- The hash of a key, expired or not.
unfoldable pub raw : String → Store → Option Bucket
raw k [] = none
raw k ((j, b) ∷ s) = if str_eq k j then some b else raw k s

raw-put : (k : String) (b : Bucket) (s : Store) → raw k (put k b s) ≡ some b
unfolding raw put
raw-put k b [] = rw ((eq_iff k k).1 refl) refl
raw-put k b ((j, x) ∷ s) = elim (Bool-cases (str_eq k j)) [
  | inl h ↦ rw h (rw h refl)
  | inr h ↦ rw h (rw h (raw-put k b s))
]

look_up-raw_none : (now : ℕ) (k : String) (s : Store) → raw k s ≡ none → look_up now k s ≡ none
unfolding raw look_up
look_up-raw_none now k [] e = refl
look_up-raw_none now k ((j, x) ∷ s) e = ground (arith, look_up-raw_none now k s)

look_up-raw_some :
    (now : ℕ) (k : String) (s : Store) (b : Bucket)
    → raw k s ≡ some b
    → look_up now k s ≡ (if ltb now b.until then some b else none)
unfolding raw look_up
look_up-raw_some now k [] b e = absurd (ground arith)
look_up-raw_some now k ((j, x) ∷ s) b e = elim (Bool-cases (str_eq k j)) [
  | inl h ↦ let same : x ≡ b = ground arith in rw h (rw same refl)
  | inr h ↦ rw h (look_up-raw_some now k s b (ground arith))
]

grown : (c t now d : ℕ) → t + d ≤ now → t * c + d * c ≤ now * c
grown zero t now d h = omega arith
grown (suc c) t now d h = omega (arith, grown c t now d h)

-- The refill of the script on ordered times.
refill :
    (full m a b : ℕ)
    → a ≤ b
    → min_ℤ (pos full) (pos m +ℤ (pos b -ℤ pos a))
      ≡ pos (if ltb (m + (b - a)) full then m + (b - a) else full)
unfolding ◌+ℤ◌ ◌-ℤ◌
refill full m a b h = ground arith

-- At the time `t`, what the bucket holds and gains until then is at most `n`.
pub record Bounded (c : ℕ) (t n : ℕ) (b : Bucket) : Type 0 where
  pub level : ℕ
  pub is_level : b.tokens ≡ pos level
  pub lives : b.until ≡ b.ts + 120000
  pub past : b.ts ≤ t
  pub at_most : level + t * c ≤ n + b.ts * c

abbrev pub Within : ℕ → ℕ → ℕ → Option Bucket → Type 0
Within c t n none = c * unit ≤ n
Within c t n (some b) = Bounded c t n b

-- The filled bucket holds no more than the bound, grown.
abbrev Holds : ℕ → ℕ → ℕ → ℕ → ℤ → Type 0
Holds c t now n x = (m : ℕ) × (x ≡ pos m) × (m + t * c ≤ n + now * c)

filled-full : (c t now n : ℕ) → c * unit + t * c ≤ n + now * c → Holds c t now n (filled c now none)
filled-full c t now n h = (
  (if ltb (c * unit + (now * c - now * c)) (c * unit)
      then c * unit + (now * c - now * c)
      else c * unit),
  refill (c * unit) (c * unit) (now * c) (now * c) (omega arith),
  ground arith,
)

filled-Holds :
    (c t now n : ℕ) (b : Bucket)
    → t ≤ now
    → Bounded c t n b
    → Holds c t now n (filled c now (if ltb now b.until then some b else none))
filled-Holds c t now n b le h = elim (Bool-cases (ltb now b.until)) [
  | inl live ↦ rw live (
    (if ltb (h.level + (now * c - b.ts * c)) (c * unit)
        then h.level + (now * c - b.ts * c)
        else c * unit),
    ap (λ x. min_ℤ (pos (c * unit)) (x +ℤ (pos (now * c) -ℤ pos (b.ts * c)))) h.is_level
        ∙ refill (c * unit) h.level (b.ts * c) (now * c) (passed 0 (omega (arith, h.past))),
    let p = passed 0 (omega (arith, h.past)) in let a = h.at_most in ground (arith, p, a),
  )
  | inr over ↦ rw over (filled-full c t now n (room (ground (arith, h.lives))))
]
  where
    room : b.ts + 120000 ≤ now → c * unit + t * c ≤ n + now * c
    room late = let g = grown c b.ts now 120000 late in let a = h.at_most in omega (arith, g, a)

    passed : (d : ℕ) → b.ts + d ≤ now → b.ts * c ≤ now * c
    passed d le = let g = grown c b.ts now d le in omega (arith, g)

-- What an answer costs the bucket.
abbrev pub granted : Answer → ℕ → ℕ
granted allowed cost = cost
granted _ cost = 0

-- A call at `now` on a bucket within its bound leaves it within the bound, grown and less the cost.
Spends : ℕ → ℕ → ℕ → ℕ → String → ℕ → Answer × Store → Type 0
Spends c t now n k cost r =
    (n' : ℕ) × Within c now n' (raw k r.1) × (granted r.0 cost * unit + n' + t * c ≤ n + now * c)

paid : (m a : ℕ) → a ≤ m → pos m -ℤ pos a ≡ pos (m - a)
unfolding ◌-ℤ◌
paid m a h = ground arith

-- The bucket that the script writes is within its own tokens.
written :
    (c now level : ℕ) (k : String) (s : Store) (x : ℤ)
    → x ≡ pos level
    → Within c now level (raw k (put k (bucket_at now x) s))
written c now level k s x at = rw (raw-put k (bucket_at now x) s) (record {
  level = level;
  is_level = at;
  lives = refl;
  past = omega arith;
  at_most = omega arith;
})

answered-Spends :
    (c t now n cost : ℕ) (k : String) (s : Store) (m : ℕ)
    → m + t * c ≤ n + now * c
    → Spends c t now n k cost (answered k s (taken c cost now (pos m)))
unfolding Spends
answered-Spends c t now n cost k s m le = onto (leb_ℤ (pos (cost * unit)) (pos m)) refl
  where
    onto :
        (b : Bool)
        → leb_ℤ (pos (cost * unit)) (pos m) ≡ b
        → Spends c t now n k cost (
            answered k s (
              if b
              then (true, bucket_at now (pos m -ℤ pos (cost * unit)))
              else (false, bucket_at now (pos m))))
    onto true e = (
      m - cost * unit,
      written c now (m - cost * unit) k s (pos m -ℤ pos (cost * unit))
          (paid m (cost * unit) (ground arith)),
      ground arith,
    )
    onto false e = (m, written c now m k s (pos m) refl, ground arith)

allow-Spends :
    (fails : Bool) (c t now n cost : ℕ) (k : String) (s : Store)
    → t ≤ now
    → Within c t n (raw k s)
    → Spends c t now n k cost (allow fails now k c cost s)
unfolding allow Spends
allow-Spends true c t now n cost k s le h =
    (n + (now * c - t * c), later (raw k s) h, omega (arith, passed))
  where
    passed : t * c ≤ now * c
    passed = let g = grown c t now 0 (omega arith) in omega (arith, g)

    later : (o : Option Bucket) → Within c t n o → Within c now (n + (now * c - t * c)) o
    later none room = omega (arith, room)
    later (some b) h = record {
      level = h.level;
      is_level = h.is_level;
      lives = h.lives;
      past = let p = h.past in omega (arith, p);
      at_most = let a = h.at_most in omega (arith, passed, a);
    }
allow-Spends false c t now n cost k s le h = onto (raw k s) refl h
  where
    filled_now : ℤ → Type 0
    filled_now x = Spends c t now n k cost (answered k s (taken c cost now x))

    spent : (x : ℤ) → Holds c t now n x → filled_now x
    spent x h = rw h.1 (answered-Spends c t now n cost k s h.0 h.2)

    onto :
        (o : Option Bucket)
        → raw k s ≡ o
        → Within c t n o
        → filled_now (filled c now (look_up now k s))
    onto none e room = rw (look_up-raw_none now k s e) (
        spent (filled c now none)
          (filled-full c t now n (let g = grown c t now 0 (omega arith) in omega (arith, g, room))))
    onto (some b) e h = rw (look_up-raw_some now k s b e) (
        spent (filled c now (if ltb now b.until then some b else none))
          (filled-Holds c t now n b le h))

-- A request for tokens of the key, at a time.
pub record Request : Type 0 where
  pub now : ℕ
  pub fails : Bool
  pub cost : ℕ

module _ (c : ℕ) (k : String) where
  -- What is let through in a run of requests.
  unfoldable pub let_through : List Request → Store → ℕ
  let_through [] s = 0
  let_through (r ∷ rs) s =
      let (a, s') = allow r.fails r.now k c r.cost s in granted a r.cost + let_through rs s'

  -- The requests are in the order of their times, from `t` to `last`.
  abbrev pub InOrder : ℕ → ℕ → List Request → Type 0
  InOrder t last [] = t ≤ last
  InOrder t last (r ∷ rs) = (t ≤ r.now) × InOrder r.now last rs

  opened :
      (t now n cost : ℕ) (r : Answer × Store)
      → Spends c t now n k cost r
      → (n' : ℕ) × Within c now n' (raw k r.1)
        × (granted r.0 cost * unit + n' + t * c ≤ n + now * c)
  unfolding Spends
  opened t now n cost r h = h

  let_through-le :
      (rs : List Request) (t last n : ℕ) (s : Store)
      → InOrder t last rs
      → Within c t n (raw k s)
      → let_through rs s * unit + t * c ≤ n + last * c
  unfolding let_through
  let_through-le [] t last n s order h = let g = grown c t last 0 (omega arith) in omega (arith, g)
  let_through-le (r ∷ rs) t last n s order h =
      let next : Answer × Store = allow r.fails r.now k c r.cost s in
      let first =
        opened t r.now n r.cost next (allow-Spends r.fails c t r.now n r.cost k s order.0 h) in
      let rest = let_through-le rs r.now last first.0 next.1 order.1 first.1 in
      let cost = first.2 in omega (arith, rest, cost)

  -- Requests for a key that has no bucket yet, made in the order of their times from `t` to `last`,
  -- are together let through for at most the capacity and what it gains in a minute for each
  -- minute between, however the driver fails; in sixty thousandths of a token.
  pub let_through-window :
      (rs : List Request) (t last : ℕ) (s : Store)
      → raw k s ≡ none
      → InOrder t last rs
      → let_through rs s * unit + t * c ≤ c * unit + last * c
  let_through-window rs t last s fresh order =
      let_through-le rs t last (c * unit) s order (rw fresh (omega arith))
