-- ===== src/Billing/History.antt =====
-- Any sequence of calls of internal/billing/engine.go, by any users, with any failures of the
-- driver.
use gpt2api.Prelude.{
  ℕ, String, ◌≡◌, ◌∙◌, inl, inr, false, some, List, [], ◌∷◌, arith, ◌==◌, Bool-cases, ==_iff,
}
use gpt2api.Prelude.Int.{ℤ, pos, ◌+ℤ◌, ◌-ℤ◌, ◌≤ℤ◌, ◌<ℤ◌, InInt64, int_laws}
use gpt2api.Db.Rows.{Database}
use gpt2api.Db.Action.{Result, ok, err, Session, Action}
use gpt2api.Billing.{pre_deduct, settle, refund_credits}
use gpt2api.Billing.Account.{Account, account, ledger, moved, Effect}
use gpt2api.Billing.Effects.{Moves, pre_deduct-Moves, settle-Moves, refund_credits-Moves}

-- The calls that a request makes: user, key, amounts, reference and remark.
pub data Call : Type 0 where
  reserve : ℕ → ℕ → ℤ → String → String → Call
  finish : ℕ → ℕ → ℤ → ℤ → String → String → Call
  give_back : ℕ → ℕ → ℤ → String → String → Call

pub perform : Call → Action (Unit {0})
perform (reserve k key amount ref remark) = pre_deduct k key amount ref remark
perform (finish k key expected actual ref remark) = settle k key expected actual ref remark
perform (give_back k key expected ref remark) = refund_credits k key expected ref remark

pub run : List Call → Session → Session
run [] s = s
run (c ∷ cs) s = run cs ((perform c s).1)

-- Positive `int64` amounts, and a use within what was reserved.
abbrev pub IsWellFormed : Call → Type 0
IsWellFormed (reserve k key amount ref remark) = (pos 0 <ℤ amount) × InInt64 amount
IsWellFormed (finish k key expected actual ref remark) =
    (pos 0 <ℤ expected)
    × InInt64 expected
    × (pos 0 ≤ℤ actual)
    × InInt64 actual
    × (actual ≤ℤ expected)
IsWellFormed (give_back k key expected ref remark) = pos 0 <ℤ expected

abbrev pub AllWellFormed : List Call → Type 0
AllWellFormed [] = Unit {0}
AllWellFormed (c ∷ cs) = IsWellFormed c × AllWellFormed cs

-- User `k` owes nothing, holds no negative reserve, and the ledger explains the balance from
-- `base` on.
pub record IsSound (k : ℕ) (base : ℤ) (d : Database) : Type 0 where
  pub acct : Account
  pub is_there : account k d ≡ some acct
  pub solvent : pos 0 ≤ℤ acct.available
  pub reserve_ok : pos 0 ≤ℤ acct.frozen
  pub explained : acct.available ≡ base +ℤ ledger k d

Effect-IsSound_self :
    (k : ℕ) (base : ℤ) (d : Database) (Test : Account → Type 0) (available frozen : ℤ)
    (d' : Database)
    → ((a : Account)
        → Test a
        → pos 0 ≤ℤ a.available
        → pos 0 ≤ℤ a.frozen
        → (pos 0 ≤ℤ a.available +ℤ available) × (pos 0 ≤ℤ a.frozen +ℤ frozen))
    → Effect k d Test available frozen d'
    → IsSound k base d
    → IsSound k base d'
unfolding moved
Effect-IsSound_self k base d Test available frozen d' enough e h =
    let same : e.before ≡ h.acct = cc (e.was, h.is_there) in
    let left = enough e.before e.tested (rw same h.solvent) (rw same h.reserve_ok) in
    record {
      acct = moved e.before available frozen;
      is_there = e.now;
      solvent = left.0;
      reserve_ok = left.1;
      explained = rw (e.ledger_now, same, h.explained) (omega int_laws);
    }

Effect-IsSound_other :
    (j k : ℕ) (base : ℤ) (d : Database) (Test : Account → Type 0) (available frozen : ℤ)
    (d' : Database)
    → (k == j) ≡ false
    → Effect j d Test available frozen d'
    → IsSound k base d
    → IsSound k base d'
Effect-IsSound_other j k base d Test available frozen d' ne e h = record {
  acct = h.acct;
  is_there = e.others k ne ∙ h.is_there;
  solvent = h.solvent;
  reserve_ok = h.reserve_ok;
  explained = rw (e.ledger_others k ne) h.explained;
}

-- A call on user `j` that keeps both amounts of `j` from falling below zero.
Moves-IsSound :
    (j k : ℕ) (base : ℤ) (Test : Account → Type 0) (available frozen : ℤ) (s : Session)
    (r : Result (Unit {0}) × Session)
    → ((a : Account)
        → Test a
        → pos 0 ≤ℤ a.available
        → pos 0 ≤ℤ a.frozen
        → (pos 0 ≤ℤ a.available +ℤ available) × (pos 0 ≤ℤ a.frozen +ℤ frozen))
    → Moves j Test available frozen s r
    → IsSound k base s.db
    → IsSound k base r.1.db
Moves-IsSound j k base Test available frozen s (err e, t) enough m h = rw m h
Moves-IsSound j k base Test available frozen s (ok a, t) enough m h = elim (Bool-cases (k == j)) [
  | inl same ↦
      let e : k ≡ j = (==_iff k j).0 same in
      Effect-IsSound_self k base s.db Test available frozen t.db enough (rw e m) h
  | inr ne ↦ Effect-IsSound_other j k base s.db Test available frozen t.db ne m h
]

-- One call, whether it succeeds or fails.
pub perform-IsSound :
    (k : ℕ) (base : ℤ) (c : Call) (s : Session)
    → IsWellFormed c
    → IsSound k base s.db
    → IsSound k base (perform c s).1.db
unfolding perform
perform-IsSound k base (reserve j key amount ref remark) s (positive, range) h =
    Moves-IsSound j k base (λ a. amount ≤ℤ a.available) (pos 0 -ℤ amount) amount s _
      (λ a covered solvent held. (omega int_laws, omega int_laws))
      (pre_deduct-Moves j key ref remark s amount positive range) h
perform-IsSound k base (finish j key expected actual ref remark) s (he, re, ha, ra, within) h =
    Moves-IsSound j k base (λ a. expected ≤ℤ a.frozen) (expected -ℤ actual) (pos 0 -ℤ expected) s _
      (λ a covered solvent held. (omega int_laws, omega int_laws))
      (settle-Moves j key ref remark s expected actual (omega arith) re ha ra (omega int_laws)) h
perform-IsSound k base (give_back j key expected ref remark) s positive h =
    Moves-IsSound j k base (λ a. expected ≤ℤ a.frozen) expected (pos 0 -ℤ expected) s _
      (λ a covered solvent held. (omega int_laws, omega int_laws))
      (refund_credits-Moves j key ref remark s expected positive) h

-- From a sound user, whatever well-formed calls are made by whichever users and however the driver
-- fails: balance and reserve stay non-negative, and the ledger explains every change.
pub run-IsSound :
    (k : ℕ) (base : ℤ) (cs : List Call) (s : Session)
    → AllWellFormed cs
    → IsSound k base s.db
    → IsSound k base (run cs s).db
unfolding run
run-IsSound k base [] s w h = h
run-IsSound k base (c ∷ cs) s (w, ws) h =
    run-IsSound k base cs (perform c s).1 ws (perform-IsSound k base c s w h)
