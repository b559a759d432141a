-- ===== src/Gateway/Shift.antt =====
-- The calls of internal/billing/engine.go that a request makes, one after the other.
use gpt2api.Prelude.{ℕ, ◌≡◌, refl, ◌∙◌, ◌⊎◌, inl, inr, false, Option, none, some, ◌==◌}
use gpt2api.Prelude.Int.{ℤ, pos, ◌+ℤ◌, int_laws}
use gpt2api.Db.Rows.{Database}
use gpt2api.Db.Action.{Result, ok, err, Session}
use gpt2api.Billing.Account.{Account, account, ledger, moved, Effect}
use gpt2api.Billing.Effects.{Moves}

abbrev pub shift_of : ℤ → ℤ → Option Account → Option Account
shift_of available frozen none = none
shift_of available frozen (some a) = some (moved a available frozen)

-- The account and the ledger of user `k` have moved, and nobody else's.
pub record Shift (k : ℕ) (available frozen : ℤ) (d d' : Database) : Type 0 where
  pub account_now : account k d' ≡ shift_of available frozen (account k d)
  pub ledger_moved : ledger k d' ≡ ledger k d +ℤ available
  pub others :
      (j : ℕ) → (j == k) ≡ false → (account j d' ≡ account j d) × (ledger j d' ≡ ledger j d)

shift_of-zero : (a : Option Account) → a ≡ shift_of (pos 0) (pos 0) a
unfolding moved
shift_of-zero none = refl
shift_of-zero (some a) = grind int_laws

shift_of-shift_of :
    (a f b g : ℤ) (x : Option Account)
    → shift_of b g (shift_of a f x) ≡ shift_of (a +ℤ b) (f +ℤ g) x
unfolding moved
shift_of-shift_of a f b g none = refl
shift_of-shift_of a f b g (some x) = grind int_laws

module _ (k : ℕ) where
  pub Shift-same : (d d' : Database) → d' ≡ d → Shift k (pos 0) (pos 0) d d'
  Shift-same d d' e = record {
    account_now = rw e (shift_of-zero (account k d));
    ledger_moved = rw e (omega int_laws);
    others = λ j ne. rw e (refl, refl);
  }

  pub Shift-trans :
      (a f b g : ℤ) (c d e : Database)
      → Shift k a f c d
      → Shift k b g d e
      → Shift k (a +ℤ b) (f +ℤ g) c e
  Shift-trans a f b g c d e p q = record {
    account_now = rw (q.account_now, p.account_now) (shift_of-shift_of a f b g (account k c));
    ledger_moved = rw (q.ledger_moved, p.ledger_moved) (omega int_laws);
    others = λ j ne. ((q.others j ne).0 ∙ (p.others j ne).0, (q.others j ne).1 ∙ (p.others j ne).1);
  }

  Effect-Shift :
      (d : Database) (Test : Account → Type 0) (a f : ℤ) (d' : Database)
      → Effect k d Test a f d'
      → Shift k a f d d'
  Effect-Shift d Test a f d' e = record {
    account_now = rw (e.now, e.was) refl;
    ledger_moved = e.ledger_now;
    others = λ j ne. (e.others j ne, e.ledger_others j ne);
  }

  -- A call that moved the account, or failed and changed nothing.
  abbrev pub Shifts : ℤ → ℤ → Session → Result (Unit {0}) × Session → Type 0
  Shifts a f s (ok x, t) = Shift k a f s.db t.db
  Shifts a f s (err e, t) = t.db ≡ s.db

  pub Moves-Shifts :
      (Test : Account → Type 0) (a f : ℤ) (s : Session) (r : Result (Unit {0}) × Session)
      → Moves k Test a f s r
      → Shifts a f s r
  Moves-Shifts Test a f s (ok x, t) h = Effect-Shift s.db Test a f t.db h
  Moves-Shifts Test a f s (err e, t) h = h

  -- The end of such a call, whatever came of it.
  pub Shifts-either :
      (a f : ℤ) (s : Session) (r : Result (Unit {0}) × Session)
      → Shifts a f s r
      → Shift k a f s.db r.1.db ⊎ (r.1.db ≡ s.db)
  Shifts-either a f s (ok x, t) h = inl h
  Shifts-either a f s (err e, t) h = inr h
