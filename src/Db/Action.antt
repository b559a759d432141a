-- ===== src/Db/Action.antt =====
-- A call on the database: a value or an error, and the session after it. Each BEGIN, statement and
-- COMMIT may fail in the driver, as the session's `faulty` says of its turn; one that reports an
-- error has changed nothing.
use gpt2api.Prelude.{
  ℕ, String, ◌+◌, ◌≡◌, refl, inl, inr, Bool, true, false, if◌then◌else◌, Bool-cases,
}
use gpt2api.Db.Rows.{Database}

-- The errors of the modelled packages, and those of the driver and the server.
pub data Error : Type 0 where
  driver out_of_range no_rows duplicate_key : Error
  insufficient conflict amount_not_positive : Error
  user_not_found : ℕ → Error
  code_not_found code_used code_expired invalid_credits invalid_quantity : Error
  checkin_disabled empty_claim : Error
  order_not_found order_state_invalid package_unavailable channel_disabled recharge_disabled : Error
  said : String → Error
  amount_out_of_range daily_limit_exceeded invalid_sign amount_mismatch bad_pay_url : Error

pub data Result {ℓ} (A : Type ℓ) : Type ℓ where
  ok : A → Result A
  err : Error → Result A

pub record Session : Type 0 where
  pub db : Database
  pub turn : ℕ
  pub faulty : ℕ → Bool

abbrev pub Action : Type 0 → Type 0
Action A = Session → Result A × Session

abbrev pub pure : {A : Type 0} → A → Action A
pure a s = (ok a, s)

abbrev pub raise : {A : Type 0} → Error → Action A
raise e s = (err e, s)

abbrev pub raise_if : Bool → Error → Action (Unit {0})
raise_if b e s = (if b then err e else ok tt, s)

infixl 5 ◌>>=◌ ◌>>◌
abbrev pub ◌>>=◌ : {A B : Type 0} → Action A → (A → Action B) → Action B
◌>>=◌ m f s = let (r, s') = m s in elim r [ ok a ↦ f a s' | err e ↦ (err e, s') ]

abbrev pub ◌>>◌ : {A B : Type 0} → Action A → Action B → Action B
m >> k = m >>= λ _. k

abbrev pub advance : Session → Session
advance s = record s { turn = s.turn + 1 }

-- One SQL statement: a function of the database, which the server may refuse.
unfoldable pub statement : {A : Type 0} → (Database → Result (A × Database)) → Action A
statement q s = if s.faulty s.turn then (err driver, advance s) else elim (q s.db) [
  | ok (a, d) ↦ (ok a, record s { db = d; turn = s.turn + 1 })
  | err e ↦ (err e, advance s)
]

-- The end of a transaction that began at `d`: ROLLBACK after an error, COMMIT otherwise.
pub close_tx : {A : Type 0} → Database → Result A × Session → Result A × Session
close_tx d (err e, t) = (err e, record t { db = d })
close_tx d (ok a, t) =
    if t.faulty t.turn
    then (err driver, record t { db = d; turn = t.turn + 1 })
    else (ok a, advance t)

-- `Engine.runTx`, and the BEGIN, ROLLBACK and COMMIT written out in the other packages.
unfoldable pub run_tx : {A : Type 0} → Action A → Action A
unfolding close_tx
run_tx body s =
    if s.faulty s.turn then (err driver, advance s) else close_tx s.db (body (advance s))

-- Postcondition of a call that began at `d` and is all or nothing.
abbrev pub Ensures : {A : Type 0} → Database → (A → Database → Type 0) → Result A × Session → Type 0
Ensures d P (ok a, s) = P a s.db
Ensures d P (err e, s) = s.db ≡ d

-- Postcondition of the successful end alone.
abbrev pub OnOk : {A : Type 0} → (A → Database → Type 0) → Result A × Session → Type 0
OnOk P (ok a, s) = P a s.db
OnOk P (err e, s) = Unit {0}

module _ {A : Type 0} where
  pub statement-Ensures :
      (q : Database → Result (A × Database)) (P : A → Database → Type 0) (s : Session)
      → ((a : A) (d : Database) → q s.db ≡ ok (a, d) → P a d)
      → Ensures s.db P (statement q s)
  unfolding statement
  statement-Ensures q P s h = elim (Bool-cases (s.faulty s.turn)) [
    | inl f ↦ rw f refl
    | inr f ↦ rw f (go (q s.db) refl)
  ]
    where
      go :
          (r : Result (A × Database))
          → q s.db ≡ r
          → Ensures s.db P (elim r [
            | ok (a, d) ↦ (ok a, record s { db = d; turn = s.turn + 1 })
            | err e ↦ (err e, advance s)
          ])
      go (ok (a, d)) e = h a d e
      go (err e) _ = refl

  close_tx-Ensures :
      (d : Database) (P : A → Database → Type 0) (r : Result A × Session)
      → OnOk P r
      → Ensures d P (close_tx d r)
  unfolding close_tx
  close_tx-Ensures d P (err e, t) k = refl
  close_tx-Ensures d P (ok a, t) k = elim (Bool-cases (t.faulty t.turn)) [
    | inl f ↦ rw f refl
    | inr f ↦ rw f k
  ]

  -- A transaction ends with what its body promises, or leaves the database as it was.
  pub run_tx-Ensures :
      (body : Action A) (P : A → Database → Type 0) (s : Session)
      → OnOk P (body (advance s))
      → Ensures s.db P (run_tx body s)
  unfolding run_tx
  run_tx-Ensures body P s h = elim (Bool-cases (s.faulty s.turn)) [
    | inl f ↦ rw f refl
    | inr f ↦ rw f (close_tx-Ensures s.db P (body (advance s)) h)
  ]

  pub statement-OnOk :
      (q : Database → Result (A × Database)) (P : A → Database → Type 0) (s : Session)
      → ((a : A) (d : Database) → q s.db ≡ ok (a, d) → P a d)
      → OnOk P (statement q s)
  statement-OnOk q P s h = Ensures→OnOk (statement q s) (statement-Ensures q P s h)
    where
      Ensures→OnOk : (r : Result A × Session) → Ensures s.db P r → OnOk P r
      Ensures→OnOk (ok a, t) k = k
      Ensures→OnOk (err e, t) k = tt

-- The successful end of a chain, from what its first part ensures.
pub OnOk-bind :
    {A B : Type 0} (m : Action B) (f : B → Action A) (Q : B → Database → Type 0)
    (P : A → Database → Type 0) (s : Session)
    → OnOk Q (m s)
    → ((b : B) (d : Database) → Q b d → (t : Session) → t.db ≡ d → OnOk P (f b t))
    → OnOk P ((m >>= f) s)
OnOk-bind {A} {B} m f Q P s first next = go (m s) first
  where
    go :
        (r : Result B × Session)
        → OnOk Q r
        → OnOk P (let (x, s') = r in elim x [ ok a ↦ f a s' | err e ↦ (err e, s') ])
    go (ok b, t) h = next b t.db h t refl
    go (err e, t) h = tt

pub OnOk-weaken :
    {A : Type 0} (m : Action A) (Q P : A → Database → Type 0) (s : Session)
    → OnOk Q (m s)
    → ((a : A) (d : Database) → Q a d → P a d)
    → OnOk P (m s)
OnOk-weaken {A} m Q P s h step = go (m s) h
  where
    go : (r : Result A × Session) → OnOk Q r → OnOk P r
    go (ok a, t) k = step a t.db k
    go (err e, t) k = tt

-- After a test that raises, the rest runs only where the test failed.
pub raise_if-bind :
    {A : Type 0} (b : Bool) (e : Error) (next : Action A) (P : A → Database → Type 0) (s : Session)
    → (b ≡ false → OnOk P (next s))
    → OnOk P ((raise_if b e >> next) s)
raise_if-bind true e next P s h = tt
raise_if-bind false e next P s h = h refl

-- A call whose value is only mapped.
pub Ensures-map :
    {A B : Type 0} (m : Action A) (f : A → B) (Q : A → Database → Type 0)
    (P : B → Database → Type 0) (d : Database) (s : Session)
    → Ensures d Q (m s)
    → ((a : A) (d' : Database) → Q a d' → P (f a) d')
    → Ensures d P ((m >>= λ a. pure (f a)) s)
Ensures-map {A} {B} m f Q P d s h step = go (m s) h
  where
    go :
        (r : Result A × Session)
        → Ensures d Q r
        → Ensures d P (let (x, s') = r in elim x [ ok a ↦ (ok (f a), s') | err e ↦ (err e, s') ])
    go (ok a, t) k = step a t.db k
    go (err e, t) k = k

-- What holds of the database at the end of a chain whose first part is all or nothing, whichever
-- way the chain ends.
pub Ensures-bind :
    {A B : Type 0} (m : Action B) (f : B → Action A) (Q : B → Database → Type 0)
    (P : Database → Type 0) (s : Session)
    → Ensures s.db Q (m s)
    → P s.db
    → ((b : B) (t : Session) → Q b t.db → P ((f b t).1).db)
    → P (((m >>= f) s).1).db
Ensures-bind {A} {B} m f Q P s first start next = go (m s) first
  where
    go :
        (r : Result B × Session)
        → Ensures s.db Q r
        → P ((elim r.0 as (λ _. Result A × Session) [ ok a ↦ f a r.1 | err e ↦ (err e, r.1) ]).1).db
    go (ok b, t) h = next b t h
    go (err e, t) h = rw h start
