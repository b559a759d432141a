-- ===== src/Db/Call.antt =====
-- Calls on a table that is no part of the credit database: the same reading of statements and
-- faults as in Action, over any state.
use gpt2api.Prelude.{ℕ, ◌+◌, ◌≡◌, refl, inl, inr, Bool, true, false, if◌then◌else◌, Bool-cases}
use gpt2api.Db.Action.{Error, driver, Result, ok, err}

pub record Server (S : Type 0) : Type 0 where
  pub state : S
  pub turn : ℕ
  pub faulty : ℕ → Bool

abbrev pub Call : Type 0 → Type 0 → Type 0
Call S A = Server S → Result A × Server S

abbrev pub pure : {S A : Type 0} → A → Call S A
pure a s = (ok a, s)

abbrev pub raise : {S A : Type 0} → Error → Call S A
raise e s = (err e, s)

abbrev pub raise_if : {S : Type 0} → Bool → Error → Call S (Unit {0})
raise_if b e s = (if b then err e else ok tt, s)

infixl 5 ◌>>=◌ ◌>>◌
abbrev pub ◌>>=◌ : {S A B : Type 0} → Call S A → (A → Call S B) → Call S B
◌>>=◌ m f s = let (r, s') = m s in elim r [ ok a ↦ f a s' | err e ↦ (err e, s') ]

abbrev pub ◌>>◌ : {S A B : Type 0} → Call S A → Call S B → Call S B
m >> k = m >>= λ _. k

abbrev pub advance : {S : Type 0} → Server S → Server S
advance s = record s { turn = s.turn + 1 }

-- One SQL statement, which may fail in the driver and then has changed nothing.
unfoldable pub statement : {S A : Type 0} → (S → Result (A × S)) → Call S A
statement q s = if s.faulty s.turn then (err driver, advance s) else elim (q s.state) [
  | ok (a, d) ↦ (ok a, record s { state = d; turn = s.turn + 1 })
  | err e ↦ (err e, advance s)
]

-- Postcondition of a call that began at `d` and is all or nothing.
abbrev pub Gives : {S A : Type 0} → S → (A → S → Type 0) → Result A × Server S → Type 0
Gives d P (ok a, s) = P a s.state
Gives d P (err e, s) = s.state ≡ d

module _ {S A : Type 0} where
  pub statement-Gives :
      (q : S → Result (A × S)) (P : A → S → Type 0) (d : S) (s : Server S)
      → s.state ≡ d
      → ((a : A) (d' : S) → q s.state ≡ ok (a, d') → P a d')
      → Gives d P (statement q s)
  unfolding statement
  statement-Gives q P d s at h = elim (Bool-cases (s.faulty s.turn)) [
    | inl f ↦ rw f at
    | inr f ↦ rw f (go (q s.state) refl)
  ]
    where
      go :
          (r : Result (A × S))
          → q s.state ≡ r
          → Gives d P (elim r [
            | ok (a, d') ↦ (ok a, record s { state = d'; turn = s.turn + 1 })
            | err e ↦ (err e, advance s)
          ])
      go (ok (a, d')) e = h a d' e
      go (err e) _ = at

  pub raise_if-Gives :
      (b : Bool) (e : Error) (next : Call S A) (P : A → S → Type 0) (d : S) (s : Server S)
      → s.state ≡ d
      → (b ≡ false → Gives d P (next s))
      → Gives d P ((raise_if b e >> next) s)
  raise_if-Gives true e next P d s at h = at
  raise_if-Gives false e next P d s at h = h refl

-- A chain whose first part only reads.
pub Gives-bind :
    {S A B : Type 0} (m : Call S B) (f : B → Call S A) (Q : B → Type 0) (P : A → S → Type 0) (d : S)
    (s : Server S)
    → Gives d (λ b d'. Q b × (d' ≡ d)) (m s)
    → ((b : B) (t : Server S) → Q b → t.state ≡ d → Gives d P (f b t))
    → Gives d P ((m >>= f) s)
Gives-bind {S} {A} {B} m f Q P d s first next = go (m s) first
  where
    go :
        (r : Result B × Server S)
        → Gives d (λ b d'. Q b × (d' ≡ d)) r
        → Gives d P (let (x, s') = r in elim x [ ok b ↦ f b s' | err e ↦ (err e, s') ])
    go (ok b, t) h = next b t h.0 h.1
    go (err e, t) h = h

-- A call whose value is only mapped.
pub Gives-map :
    {S A B : Type 0} (m : Call S A) (f : A → B) (Q : A → S → Type 0) (P : B → S → Type 0) (d : S)
    (s : Server S)
    → Gives d Q (m s)
    → ((a : A) (d' : S) → Q a d' → P (f a) d')
    → Gives d P ((m >>= λ a. pure (f a)) s)
Gives-map {S} {A} {B} m f Q P d s h step = go (m s) h
  where
    go :
        (r : Result A × Server S)
        → Gives d Q r
        → Gives d P (let (x, s') = r in elim x [ ok a ↦ (ok (f a), s') | err e ↦ (err e, s') ])
    go (ok a, t) k = step a t.state k
    go (err e, t) k = k
