-- ===== src/Redeem/Once.antt =====
-- A code of internal/redeem pays out once, whoever tries it and however often.
use gpt2api.Prelude.{
  ℕ, suc, ◌≤◌, ◌<◌, String, ◌≡◌, refl, Bool, false, some, List, [], ◌∷◌, arith, str_eq, eq_iff,
  Bool-cases, inl, inr, if◌then◌else◌,
}
use gpt2api.Db.Table.{find, find_where}
use gpt2api.Db.Keys.{
  IsKeyed, find_where-find, find_where_test, find_where-replace_self, find_where-replace_other,
  replace-IsKeyed,
}
use gpt2api.Db.Rows.{Database, Code}
use gpt2api.Db.Action.{Result, ok, err, Session, Ensures}
use gpt2api.Redeem.{RedeemResult, has_code, redeem_code}
use gpt2api.Redeem.Payout.{taken, Payout, redeem_code-Ensures}

-- A call of `DAO.Redeem`: who, which code, when.
pub record Attempt : Type 0 where
  pub user_id : ℕ
  pub code : String
  pub now : ℕ

abbrev pub attempt : Attempt → Session → Result RedeemResult × Session
attempt a s = redeem_code a.user_id a.code a.now s

-- One more if the attempt was on this code and succeeded.
abbrev tally : Bool → Result RedeemResult → ℕ → ℕ
tally mine (ok r) later = if mine then suc later else later
tally mine (err e) later = later

-- The payouts of `code` among the attempts, run one after the other.
pub payouts : String → List Attempt → Session → ℕ
payouts code [] s = 0
payouts code (a ∷ rest) s =
    let (r, t) = attempt a s in tally (str_eq a.code code) r (payouts code rest t)

-- The row of `code` has been taken.
abbrev pub IsTaken : String → Database → Type 0
IsTaken code d =
    (r : ℕ × Code) × (find_where (has_code code) d.codes ≡ some r) × (0 < (r.1).used_by_user_id)

abbrev pub Keyed : Database → Type 0
Keyed d = IsKeyed d.next_code d.codes

module _ (d : Database) (k now : ℕ) (named : 0 < k) (code : String) (r : RedeemResult)
    (d' : Database) (keyed : Keyed d) (p : Payout d k now code r d') where
  Payout-Keyed : Keyed d'
  Payout-Keyed =
      rw (p.codes_now, p.next_same)
        (replace-IsKeyed p.id (taken p.item k now) d.next_code d.codes keyed)

  -- The code that was paid out is taken.
  Payout-IsTaken : IsTaken code d'
  Payout-IsTaken = (
    (p.id, taken p.item k now),
    rw p.codes_now (
        find_where-replace_self (has_code code) p.id d.next_code p.item (taken p.item k now) d.codes
          keyed p.found (find_where_test (has_code code) p.id p.item d.codes p.found)),
    named,
  )

  other_code : (c : String) → IsTaken c d → str_eq code c ≡ false
  other_code c (q, at, used) = elim (Bool-cases (str_eq code c)) [
    | inr ne ↦ ne
    | inl same ↦
        let e : code ≡ c = (eq_iff code c).0 same in
        let both : find_where (has_code c) d.codes ≡ some (p.id, p.item) = rw (← e) p.found in
        absurd (taken_twice q at used both p.unused)
  ]
    where
      taken_twice :
          (q : ℕ × Code)
          → find_where (has_code c) d.codes ≡ some q
          → 0 < (q.1).used_by_user_id
          → find_where (has_code c) d.codes ≡ some (p.id, p.item)
          → p.item.used_by_user_id ≡ 0
          → ⊥
      taken_twice q at used both unused = ground arith

  -- A code that was taken stays so.
  Payout-IsTaken_other : (c : String) → IsTaken c d → IsTaken c d'
  Payout-IsTaken_other c (q, at, used) =
      let own : p.item.code ≡ code =
        (eq_iff p.item.code code).0 (find_where_test (has_code code) p.id p.item d.codes p.found) in
      let misses : has_code c p.item ≡ false = rw own (other_code c (q, at, used)) in
      let row : find p.id d.codes ≡ some p.item =
        find_where-find (has_code code) p.id d.next_code p.item d.codes keyed p.found in
      (
        q,
        rw
            (
              p.codes_now,
              find_where-replace_other (has_code c) p.id p.item (taken p.item k now) d.codes row
                  misses misses,
            )
            at,
        used,
      )

-- Every attempt is by a signed-in user: `Handler.Redeem` refuses user 0.
abbrev pub AllNamed : List Attempt → Type 0
AllNamed [] = Unit {0}
AllNamed (a ∷ rest) = (0 < a.user_id) × AllNamed rest

-- A taken code is never paid out again.
pub payouts_taken :
    (code : String) (attempts : List Attempt) (s : Session)
    → AllNamed attempts
    → Keyed s.db
    → IsTaken code s.db
    → payouts code attempts s ≡ 0
unfolding payouts
payouts_taken code [] s named keyed h = refl
payouts_taken code (a ∷ rest) s (first, named) keyed h =
    taken_step (attempt a s) (payouts_taken code rest)
      (redeem_code-Ensures a.user_id a.now a.code s keyed)
  where
    taken_step :
        (r : Result RedeemResult × Session)
        → ((t : Session) → AllNamed rest → Keyed t.db → IsTaken code t.db → payouts code rest t ≡ 0)
        → Ensures s.db (Payout s.db a.user_id a.now a.code) r
        → tally (str_eq a.code code) r.0 (payouts code rest r.1) ≡ 0
    taken_step (ok x, t) ih p =
        let misses : str_eq a.code code ≡ false =
          other_code s.db a.user_id a.now first a.code x t.db keyed p code h in
        rw misses (
          ih t named (Payout-Keyed s.db a.user_id a.now first a.code x t.db keyed p)
            (Payout-IsTaken_other s.db a.user_id a.now first a.code x t.db keyed p code h))
    taken_step (err e, t) ih same = ih t named (rw same keyed) (rw same h)

-- Whatever attempts are made, by signed-in users and with any failures of the driver, and where
-- code keys are distinct, a code is
-- paid out at most once.
pub payouts-le-one :
    (code : String) (attempts : List Attempt) (s : Session)
    → AllNamed attempts
    → Keyed s.db
    → payouts code attempts s ≤ 1
unfolding payouts
payouts-le-one code [] s named keyed = omega arith
payouts-le-one code (a ∷ rest) s (first, named) keyed =
    once_step (attempt a s) (payouts-le-one code rest)
      (redeem_code-Ensures a.user_id a.now a.code s keyed)
  where
    once_step :
        (r : Result RedeemResult × Session)
        → ((t : Session) → AllNamed rest → Keyed t.db → payouts code rest t ≤ 1)
        → Ensures s.db (Payout s.db a.user_id a.now a.code) r
        → tally (str_eq a.code code) r.0 (payouts code rest r.1) ≤ 1
    once_step (ok x, t) ih p = elim (Bool-cases (str_eq a.code code)) [
      | inl mine ↦
          let e : a.code ≡ code = (eq_iff a.code code).0 mine in
          let none_later : payouts code rest t ≡ 0 =
            payouts_taken code rest t named
              (Payout-Keyed s.db a.user_id a.now first a.code x t.db keyed p)
              (rw (← e) (Payout-IsTaken s.db a.user_id a.now first a.code x t.db keyed p)) in
          rw mine (omega arith)
      | inr other ↦
          rw other (ih t named (Payout-Keyed s.db a.user_id a.now first a.code x t.db keyed p))
    ]
    once_step (err e, t) ih same = ih t named (rw same keyed)
