-- ===== src/Scheduler/Releasing.antt =====
-- `Lease.Release` of internal/scheduler/scheduler.go.
use gpt2api.Prelude.{
  ℕ, ◌+◌, ◌≡◌, ◌⊎◌, ◌==◌, refl, ap, ◌∙◌, true, false, Option, none, some, str_eq, Bool-cases, inl,
  inr, arith, if◌then◌else◌,
}
use gpt2api.Lock.{is_held_by}
use gpt2api.Lock.Others.{release_frees}
use gpt2api.Db.Table.{Table, find, find-replace_self, find-replace_ne}
use gpt2api.Account.{Account, used, set_row, mark_used}
use gpt2api.Proxy.{Held, release_lease}
use gpt2api.Scheduler.{World, Lease, fails, tick}
use gpt2api.Scheduler.Attempt.{give_back, release_held}
use gpt2api.Scheduler.Dispatch.{release_account}

-- The proxy's release keeps the accounts and the faults.
release_held-faulty :
    (now : ℕ) (o : Option Held) (w : World)
    → (((release_held now o w).1).shared.faulty ≡ w.shared.faulty)
      × (((release_held now o w).1).accounts ≡ w.accounts)
unfolding release_held release_lease
release_held-faulty now none w = (refl, refl)
release_held-faulty now (some h) w = elim (Bool-cases (str_eq h.lease.lock_key "")) [
  | inl e ↦ rw e (refl, refl)
  | inr e ↦ elim (Bool-cases (str_eq h.lease.lock_token "")) [
    | inl f ↦ rw (e, f) (refl, refl)
    | inr f ↦ elim (Bool-cases h.released) [
      | inl g ↦ rw (e, f, g) (refl, refl)
      | inr g ↦ rw (e, f, g) (refl, refl)
    ]
  ]
]

abbrev pub IsFreed : ℕ → Lease → World → Type 0
IsFreed now l w = is_held_by now l.lock_key l.lock_token w.shared.locks ≡ false

give_back_frees :
    (now : ℕ) (l : Lease) (w : World)
    → fails w ≡ false
    → IsFreed now l (give_back now l.lock_key l.lock_token w)
give_back_frees now l w calm = rw calm (release_frees now l.lock_key l.lock_token w.shared.locks)

-- `b` is `a` used now, and once more on the day `today`; the other columns are kept.
pub record IsUsed (now today : ℕ) (a b : Account) : Type 0 where
  pub last : b.last_used_at ≡ some now
  pub day : b.today_used_date ≡ some today
  pub again : a.today_used_date ≡ some today → b.today_used_count ≡ a.today_used_count + 1
  pub first :
      (a.today_used_date ≡ none) ⊎ ((d : ℕ) × (a.today_used_date ≡ some d) × ((d == today) ≡ false))
      → b.today_used_count ≡ 1
  pub kept :
      record b {
        last_used_at = a.last_used_at;
        today_used_date = a.today_used_date;
        today_used_count = a.today_used_count;
      }
      ≡ a

used-IsUsed : (now today : ℕ) (a : Account) → IsUsed now today a (used now today a)
used-IsUsed now today a = record {
  last = refl;
  day = refl;
  again = λ e. again a.today_used_date e;
  first = λ e. first a.today_used_date e;
  kept = refl;
}
  where
    count : Option ℕ → ℕ
    count o = elim o [ none ↦ 1 | some day ↦ if day == today then a.today_used_count + 1 else 1 ]

    again : (o : Option ℕ) → o ≡ some today → count o ≡ a.today_used_count + 1
    again none e = absurd (ground (arith, e))
    again (some d) e = ground (arith, e)

    first :
        (o : Option ℕ)
        → (o ≡ none) ⊎ ((d : ℕ) × (o ≡ some d) × ((d == today) ≡ false))
        → count o ≡ 1
    first none e = refl
    first (some d) (inl e) = absurd (ground (arith, e))
    first (some d) (inr (x, e, ne)) = ground (arith, e, ne)

-- What is read back of the table after its row `id` was used; the other rows are as before.
pub record Reads (now today id : ℕ) (t t' : Table Account) : Type 0 where
  pub own :
      (a : Account)
      → find id t ≡ some a
      → (b : Account) × (find id t' ≡ some b) × IsUsed now today a b
  pub others : (j : ℕ) → (j == id) ≡ false → find j t' ≡ find j t

mark_used-Reads :
    (now today id : ℕ) (t : Table Account) → Reads now today id t (mark_used now today id t)
mark_used-Reads now today id t = record {
  own = λ a found. (
    used now today a,
    rw found (find-replace_self id (used now today a) a t found),
    used-IsUsed now today a,
  );
  others = λ j ne. go j ne (find id t);
}
  where
    go :
        (j : ℕ)
        → (j == id) ≡ false
        → (o : Option Account) → find j (set_row (λ a. true) (used now today) id t o) ≡ find j t
    go j ne none = refl
    go j ne (some a) = find-replace_ne j id (used now today a) t ne

-- Where the driver does not fail, the release of a lease leaves no lock with its key and token. The
-- account of the lease, if it is in the table, was then last used now and is counted for today, once
-- more than before or once where the count was of another day or of none; its other columns and the
-- other accounts are as before.
pub release_account_frees :
    (day_of : ℕ → ℕ) (now : ℕ) (l : Lease) (w : World)
    → ((n : ℕ) → w.shared.faulty n ≡ false)
    → IsFreed now l (release_account day_of now l w).1
      × Reads now (day_of now) l.account_id w.accounts (release_account day_of now l w).1.accounts
unfolding release_account
release_account_frees day_of now l w calm = rw (calm w.shared.turn) (
  give_back_frees now l after (ap (λ f. f after.shared.turn) kept.0 ∙ calm after.shared.turn),
  rw kept.1 (mark_used-Reads now (day_of now) l.account_id w.accounts),
)
  where
    marked : World
    marked = record (tick w) { accounts = mark_used now (day_of now) l.account_id w.accounts }

    after : World
    after = (release_held now l.proxy_lease marked).1

    kept : (after.shared.faulty ≡ w.shared.faulty) × (after.accounts ≡ marked.accounts)
    kept = release_held-faulty now l.proxy_lease marked
