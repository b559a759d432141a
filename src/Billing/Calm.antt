-- ===== src/Billing/Calm.antt =====
-- The calls of internal/billing/engine.go in a session where nothing fails.
use gpt2api.Prelude.{ℕ, String, ◌≡◌, refl, ap, Bool, true, false, some, Option, [], ◌∷◌, arith, ◌+◌}
use gpt2api.Prelude.Int.{
  ℤ, pos, ◌+ℤ◌, ◌-ℤ◌, ◌≤ℤ◌, ◌<ℤ◌, InInt64, int_laws, leb_ℤ, wrap64, fits_int64, InInt64→fits,
}
use gpt2api.Db.Table.{find, find-replace_self}
use gpt2api.Db.Rows.{Database, User, freeze}
use gpt2api.Db.Action.{
  Result, ok, err, insufficient, Session, Action, ◌>>◌, Ensures, statement, run_tx,
}
use gpt2api.Billing.{
  neg64, pre_deduct, refund_credits, settle, update_users, select_balance, insert_transaction,
  insert_if, is_live, holds_frozen, entry, settle_tx,
}
use gpt2api.Billing.Posting.{post, touch}
use gpt2api.Billing.Account.{account, account-of_user, ledger, moved, of_user, Effect}
use gpt2api.Billing.Effects.{
  used_of_nonneg, kept_exact, neg64-InInt64, settle-Moves, refund_credits-Moves,
}

-- A session in which nothing fails.
abbrev pub calm : Database → ℕ → Session
calm d n = record { db = d; turn = n; faulty = λ _. false }

module _ (k key : ℕ) (u : User) (d : Database) (n : ℕ) where
  pub pre_deduct-calm :
      (amount : ℤ) (ref remark : String)
      → find k d.users ≡ some u
      → u.deleted ≡ false
      → pos 0 <ℤ amount
      → amount ≤ℤ u.credit_balance
      → fits_int64 (u.credit_balance +ℤ (pos 0 -ℤ amount)) ≡ true
      → fits_int64 (u.credit_frozen +ℤ amount) ≡ true
      → pre_deduct k key amount ref remark (calm d n) ≡ (
        ok tt,
        calm
            (post k u
              (pos 0 -ℤ amount)
              amount
              (entry k key freeze (neg64 amount) (u.credit_balance +ℤ (pos 0 -ℤ amount)) ref remark
                ∷ [])
              d)
            (n + 1 + 1 + 1 + 1 + 1),
      )
  unfolding pre_deduct post touch update_users select_balance insert_transaction statement run_tx
  pre_deduct-calm amount ref remark found live positive covered fits held =
      ground (arith, find-replace_self k (touch u (pos 0 -ℤ amount) amount) u d.users found)

  pub refund_credits-calm :
      (expected : ℤ) (ref remark : String)
      → find k d.users ≡ some u
      → u.deleted ≡ false
      → pos 0 <ℤ expected
      → expected ≤ℤ u.credit_frozen
      → fits_int64 (u.credit_balance +ℤ expected) ≡ true
      → fits_int64 (u.credit_frozen +ℤ (pos 0 -ℤ expected)) ≡ true
      → (refund_credits k key expected ref remark (calm d n)).0 ≡ ok tt
  unfolding refund_credits post touch update_users select_balance insert_transaction statement
      run_tx
  refund_credits-calm expected ref remark found live positive covered fits held =
      ground (arith, find-replace_self k (touch u expected (pos 0 -ℤ expected)) u d.users found)

  pub pre_deduct_short-calm :
      (amount : ℤ) (ref remark : String)
      → find k d.users ≡ some u
      → pos 0 <ℤ amount
      → u.credit_balance <ℤ amount
      → let r = pre_deduct k key amount ref remark (calm d n) in
        (r.0 ≡ err insufficient) × (r.1.db ≡ d)
  unfolding pre_deduct update_users statement run_tx
  pre_deduct_short-calm amount ref remark found positive short =
      let no : leb_ℤ amount u.credit_balance ≡ false = ground arith in (ground arith, ground arith)

  -- The update of a known row that the guard and the columns allow.
  update_users-calm :
      (guard : User → Option Bool) (available frozen : ℤ)
      → find k d.users ≡ some u
      → guard u ≡ some true
      → fits_int64 (u.credit_balance +ℤ available) ≡ true
      → fits_int64 (u.credit_frozen +ℤ frozen) ≡ true
      → update_users k guard available frozen (calm d n)
        ≡ (ok 1, calm (post k u available frozen [] d) (n + 1))
  unfolding update_users statement post touch
  update_users-calm guard available frozen found allowed fits held = ground arith

  settle_tx-calm :
      (expected actual : ℤ) (ref remark : String)
      → find k d.users ≡ some u
      → holds_frozen (neg64 expected) u ≡ some true
      → fits_int64 (u.credit_balance +ℤ wrap64 (expected -ℤ actual)) ≡ true
      → fits_int64 (u.credit_frozen +ℤ neg64 expected) ≡ true
      → let r = settle_tx k key expected actual ref remark (calm d n) in
        (r.0 ≡ ok tt) × ((m : ℕ) → r.1.faulty m ≡ false)
  unfolding settle_tx select_balance insert_transaction statement insert_if post
  settle_tx-calm expected actual ref remark found allowed fits held =
      (ground (arith, updated, row_now), λ m. ground (arith, updated, row_now))
    where
      updated :
          update_users k
            (holds_frozen (neg64 expected))
            (wrap64 (expected -ℤ actual))
            (neg64 expected)
            (calm d n)
          ≡ (ok 1, calm (post k u (wrap64 (expected -ℤ actual)) (neg64 expected) [] d) (n + 1))
      updated =
          update_users-calm (holds_frozen (neg64 expected)) (wrap64 (expected -ℤ actual))
            (neg64 expected) found allowed fits held

      row_now :
          find k (post k u (wrap64 (expected -ℤ actual)) (neg64 expected) [] d).users
          ≡ some (touch u (wrap64 (expected -ℤ actual)) (neg64 expected))
      row_now =
          find-replace_self k (touch u (wrap64 (expected -ℤ actual)) (neg64 expected)) u d.users
            found

-- A transaction in a calm session commits.
run_tx-calm :
    (body : Action (Unit {0})) (d : Database) (n : ℕ)
    → let r = body (calm d (n + 1)) in
      (r.0 ≡ ok tt) → ((m : ℕ) → r.1.faulty m ≡ false) → (run_tx body (calm d n)).0 ≡ ok tt
unfolding run_tx
run_tx-calm body d n done quiet =
    let r = body (calm d (n + 1)) in ground (arith, done, quiet r.1.turn)

settle-positive :
    (k key : ℕ) (expected actual : ℤ) (ref remark : String)
    → pos 0 <ℤ expected
    → pos 0 ≤ℤ actual
    → settle k key expected actual ref remark ≡ run_tx (settle_tx k key expected actual ref remark)
unfolding settle
settle-positive k key expected actual ref remark he ha =
    let started : leb_ℤ expected (pos 0) ≡ false = ground arith in
    rw started (ap (λ x. run_tx (settle_tx k key expected x ref remark)) (used_of_nonneg actual ha))

Ensures-ok :
    (d : Database) (P : Unit {0} → Database → Type 0) (r : Result (Unit {0}) × Session)
    → Ensures d P r
    → r.0 ≡ ok tt
    → P tt r.1.db
Ensures-ok d P (ok a, t) h e = h
Ensures-ok d P (err x, t) h e = absurd (ground arith)

pub >>-ok : (m next : Action (Unit {0})) (s t : Session) → m s ≡ (ok tt, t) → (m >> next) s ≡ next t
>>-ok m next s t e = ground (arith, e)

-- An account with a live user's amounts, and a ledger.
abbrev pub Holds : ℕ → ℤ → ℤ → ℤ → Result (Unit {0}) × Session → Type 0
Holds k available frozen logged r =
    (r.0 ≡ ok tt)
    × (account k r.1.db
        ≡ some (record { available = available; frozen = frozen; is_deleted = false }))
    × (ledger k r.1.db ≡ logged)

module _ (k key : ℕ) (expected : ℤ) (ref remark : String) (d : Database) (n : ℕ) (u : User)
    (found : find k d.users ≡ some u) (live : u.deleted ≡ false) (positive : pos 0 <ℤ expected)
    (range : InInt64 expected) where
  -- Where enough is frozen, `Settle` of at most that succeeds.
  pub settle-Holds :
      (actual : ℤ)
      → pos 0 ≤ℤ actual
      → InInt64 actual
      → expected ≤ℤ u.credit_frozen
      → InInt64 u.credit_frozen
      → InInt64 (u.credit_balance +ℤ (expected -ℤ actual))
      → Holds k
          (u.credit_balance +ℤ (expected -ℤ actual))
          (u.credit_frozen +ℤ (pos 0 -ℤ expected))
          (ledger k d +ℤ (expected -ℤ actual))
          (settle k key expected actual ref remark (calm d n))
  unfolding holds_frozen is_live moved
  settle-Holds actual ha ra covered rf fits = (done, account_now, effect.ledger_now)
    where
      kept : wrap64 (expected -ℤ actual) ≡ expected -ℤ actual
      kept = kept_exact expected actual (omega arith) range ha ra

      released : neg64 expected ≡ pos 0 -ℤ expected
      released = neg64-InInt64 expected (omega arith) range

      left : InInt64 (u.credit_frozen +ℤ (pos 0 -ℤ expected))
      left = record { above = omega int_laws; below = omega int_laws }

      allowed : holds_frozen (neg64 expected) u ≡ some true
      allowed =
          let stays : pos 0 ≤ℤ u.credit_frozen +ℤ (pos 0 -ℤ expected) = omega int_laws in
          ground (arith, released, InInt64→fits _ left)

      tx :
          let r = settle_tx k key expected actual ref remark (calm d (n + 1)) in
          (r.0 ≡ ok tt) × ((m : ℕ) → r.1.faulty m ≡ false)
      tx =
          settle_tx-calm k key u d (n + 1) expected actual ref remark found allowed
            (rw kept (InInt64→fits _ fits)) (rw released (InInt64→fits _ left))

      done : (settle k key expected actual ref remark (calm d n)).0 ≡ ok tt
      done =
          rw (settle-positive k key expected actual ref remark positive ha)
            (run_tx-calm (settle_tx k key expected actual ref remark) d n tx.0 tx.1)

      effect :
          Effect k d
            (λ a. expected ≤ℤ a.frozen)
            (expected -ℤ actual)
            (pos 0 -ℤ expected)
            (settle k key expected actual ref remark (calm d n)).1.db
      effect =
          Ensures-ok d _ (settle k key expected actual ref remark (calm d n))
            (settle-Moves k key ref remark (calm d n) expected actual (omega arith) range ha ra
              (omega int_laws))
            done

      account_now :
          account k (settle k key expected actual ref remark (calm d n)).1.db
          ≡ some (record {
            available = u.credit_balance +ℤ (expected -ℤ actual);
            frozen = u.credit_frozen +ℤ (pos 0 -ℤ expected);
            is_deleted = false;
          })
      account_now =
          let same : effect.before ≡ of_user u = cc (effect.was, account-of_user k d u found) in
          rw (effect.now, same, live) refl

  -- Where enough is frozen, `Refund` succeeds and moves it back.
  pub refund_credits-Holds :
      expected ≤ℤ u.credit_frozen
      → InInt64 u.credit_frozen
      → InInt64 (u.credit_balance +ℤ expected)
      → Holds k
          (u.credit_balance +ℤ expected)
          (u.credit_frozen +ℤ (pos 0 -ℤ expected))
          (ledger k d +ℤ expected)
          (refund_credits k key expected ref remark (calm d n))
  unfolding moved
  refund_credits-Holds covered rf fits = (done, account_now, effect.ledger_now)
    where
      left : InInt64 (u.credit_frozen +ℤ (pos 0 -ℤ expected))
      left = record { above = omega int_laws; below = omega int_laws }

      done : (refund_credits k key expected ref remark (calm d n)).0 ≡ ok tt
      done =
          refund_credits-calm k key u d n expected ref remark found live positive covered
            (InInt64→fits _ fits) (InInt64→fits _ left)

      effect :
          Effect k d
            (λ a. expected ≤ℤ a.frozen)
            expected
            (pos 0 -ℤ expected)
            (refund_credits k key expected ref remark (calm d n)).1.db
      effect =
          Ensures-ok d _ (refund_credits k key expected ref remark (calm d n))
            (refund_credits-Moves k key ref remark (calm d n) expected positive) done

      account_now :
          account k (refund_credits k key expected ref remark (calm d n)).1.db
          ≡ some (record {
            available = u.credit_balance +ℤ expected;
            frozen = u.credit_frozen +ℤ (pos 0 -ℤ expected);
            is_deleted = false;
          })
      account_now =
          let same : effect.before ≡ of_user u = cc (effect.was, account-of_user k d u found) in
          rw (effect.now, same, live) refl
