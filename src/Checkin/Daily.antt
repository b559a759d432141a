-- ===== src/Checkin/Daily.antt =====
-- A user of internal/checkin is awarded at most once a day, whatever is claimed and however often.
use gpt2api.Prelude.{
  ℕ, suc, ◌≤◌, String, ◌≡◌, refl, ◌∙◌, Bool, true, false, ◌&&◌, none, some, Option, List, [], ◌∷◌,
  arith, ◌==◌, str_eq, eq_iff, Bool-cases, inl, inr, if◌then◌else◌,
}
use gpt2api.Db.Table.{find_where}
use gpt2api.Db.Rows.{Database, Checkin}
use gpt2api.Db.Action.{Result, ok, err, Session, Ensures}
use gpt2api.Checkin.{ClaimInput, is_on, claim}
use gpt2api.Checkin.Award.{Keyed, Awarded, Claims, claim-Ensures}

-- A call of `DAO.Claim`: by whom, and for what.
pub record Visit : Type 0 where
  pub user_id : ℕ
  pub input : ClaimInput

abbrev pub visit : Visit → Session → Result (Option Checkin × Bool) × Session
visit v s = claim v.user_id v.input s

-- The visit is by user `k` on the day.
abbrev concerns : ℕ → String → Visit → Bool
concerns k day v = (v.user_id == k) && str_eq (v.input).day day

-- One more if the visit was this user's on this day and made the row.
abbrev tally : Bool → Result (Option Checkin × Bool) → ℕ → ℕ
tally mine (ok (c, true)) later = if mine then suc later else later
tally mine (ok (c, false)) later = later
tally mine (err e) later = later

-- The awards of user `k` on the day among the visits, made one after the other.
pub awards : ℕ → String → List Visit → Session → ℕ
awards k day [] s = 0
awards k day (v ∷ rest) s =
    let (r, t) = visit v s in tally (concerns k day v) r (awards k day rest t)

-- User `k` has a row on the day.
abbrev pub IsClaimed : ℕ → String → Database → Type 0
IsClaimed k day d = (r : ℕ × Checkin) × (find_where (is_on k day) d.checkins ≡ some r)

module _ (d : Database) (v : Visit) (c : Option Checkin) (d' : Database)
    (a : Awarded d v.user_id v.input c d') where
  own_row : (k : ℕ) (day : String) → is_on k day a.row ≡ concerns k day v
  own_row k day = rw a.is_row refl

  same_visit :
      (k : ℕ) (day : String)
      → concerns k day v ≡ true
      → find_where (is_on k day) d.checkins ≡ none
        × (find_where (is_on k day) d'.checkins ≡ some (d.next_checkin, a.row))
  same_visit k day mine =
      let who : v.user_id ≡ k = ground arith in
      let when : (v.input).day ≡ day = (eq_iff (v.input).day day).0 (ground arith) in
      (rw (← who, ← when) a.was_open, rw (← who, ← when) a.now_closed)

  Awarded-IsClaimed_other : (k : ℕ) (day : String) → IsClaimed k day d → IsClaimed k day d'
  Awarded-IsClaimed_other k day (r, at) = elim (Bool-cases (concerns k day v)) [
    | inl mine ↦ ((d.next_checkin, a.row), (same_visit k day mine).1)
    | inr other ↦ (r, a.others k day (own_row k day ∙ other) ∙ at)
  ]

  not_again : (k : ℕ) (day : String) → IsClaimed k day d → concerns k day v ≡ false
  not_again k day (r, at) = elim (Bool-cases (concerns k day v)) [
    | inr other ↦ other
    | inl mine ↦ absurd (vacant (same_visit k day mine).0 at)
  ]
    where
      vacant :
          find_where (is_on k day) d.checkins ≡ none
          → find_where (is_on k day) d.checkins ≡ some r
          → ⊥
      vacant e e' = ground arith

-- A day that has its row is not awarded again.
pub awards_claimed :
    (k : ℕ) (day : String) (visits : List Visit) (s : Session)
    → Keyed s.db
    → IsClaimed k day s.db
    → awards k day visits s ≡ 0
unfolding awards
awards_claimed k day [] s keyed h = refl
awards_claimed k day (v ∷ rest) s keyed h =
    claimed_step (visit v s) (awards_claimed k day rest) (claim-Ensures v.user_id v.input s keyed)
  where
    claimed_step :
        (r : Result (Option Checkin × Bool) × Session)
        → ((t : Session) → Keyed t.db → IsClaimed k day t.db → awards k day rest t ≡ 0)
        → Ensures s.db (Claims v.user_id v.input s keyed) r
        → tally (concerns k day v) r.0 (awards k day rest r.1) ≡ 0
    claimed_step (ok (c, true), t) ih a =
        rw (not_again s.db v c t.db a k day h)
          (ih t a.keyed (Awarded-IsClaimed_other s.db v c t.db a k day h))
    claimed_step (ok (c, false), t) ih same = ih t (rw same.0 keyed) (rw same.0 h)
    claimed_step (err e, t) ih same = ih t (rw same keyed) (rw same h)

-- Whatever is claimed, by any users and with any failures of the driver, and where check-in keys
-- are distinct, a user is awarded at most
-- once for a day.
pub awards-le-one :
    (k : ℕ) (day : String) (visits : List Visit) (s : Session)
    → Keyed s.db
    → awards k day visits s ≤ 1
unfolding awards
awards-le-one k day [] s keyed = omega arith
awards-le-one k day (v ∷ rest) s keyed =
    once_step (visit v s) (awards-le-one k day rest) (claim-Ensures v.user_id v.input s keyed)
  where
    once_step :
        (r : Result (Option Checkin × Bool) × Session)
        → ((t : Session) → Keyed t.db → awards k day rest t ≤ 1)
        → Ensures s.db (Claims v.user_id v.input s keyed) r
        → tally (concerns k day v) r.0 (awards k day rest r.1) ≤ 1
    once_step (ok (c, true), t) ih a = elim (Bool-cases (concerns k day v)) [
      | inl mine ↦
          let no_more : awards k day rest t ≡ 0 =
            awards_claimed k day rest t a.keyed
              ((s.db.next_checkin, a.row), (same_visit s.db v c t.db a k day mine).1) in
          rw mine (omega arith)
      | inr other ↦ rw other (ih t a.keyed)
    ]
    once_step (ok (c, false), t) ih same = ih t (rw same.0 keyed)
    once_step (err e, t) ih same = ih t (rw same keyed)
