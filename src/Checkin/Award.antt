-- ===== src/Checkin/Award.antt =====
-- What `DAO.Claim` of internal/checkin/dao.go does.
use gpt2api.Prelude.{
  ℕ, ◌+◌, String, ◌≡◌, refl, ap, ◌∙◌, Bool, true, false, none, some, Option, ◌∷◌, arith, eq_iff,
}
use gpt2api.Prelude.Int.{ℤ, pos, ◌+ℤ◌}
use gpt2api.Db.Table.{replace, find_where}
use gpt2api.Db.Keys.{IsKeyed, IsKeyed-mono, find_fresh}
use gpt2api.Db.Rows.{Database, Checkin}
use gpt2api.Db.Action.{
  duplicate_key, Result, ok, err, Session, pure, ◌>>=◌, ◌>>◌, OnOk, OnOk-bind, OnOk-weaken,
  statement-OnOk, Ensures, statement-Ensures, run_tx, run_tx-Ensures, Ensures-map, advance,
}
use gpt2api.Billing.Account.{Effect, Effect-frame}
use gpt2api.Billing.{award_checkin_tx}
use gpt2api.Billing.Credit.{Credited, award_checkin_tx-Credited}
use gpt2api.Checkin.{
  ClaimInput, is_on, get_by_day, insert_checkin, awarded, update_checkin, award, claim_tx,
  after_claim, claim,
}

-- The keys of the check-ins are distinct and below the next one.
abbrev pub Keyed : Database → Type 0
Keyed d = IsKeyed d.next_checkin d.checkins

abbrev new_row : ℕ → ClaimInput → Checkin
new_row k i = record {
  user_id = k;
  checkin_day = i.day;
  checked_at = i.at;
  awarded_credits = pos 0;
  balance_after = pos 0;
  ref_id = "";
  remark = "";
}

-- User `k` had no check-in on the day, has one now with the amount and the new balance, and got
-- the amount; no other check-in, account or ledger changed.
pub record Awarded (d : Database) (k : ℕ) (i : ClaimInput) (c : Option Checkin) (d' : Database)
    : Type 0 where
  pub row : Checkin
  pub returned : c ≡ some row
  pub was_open : find_where (is_on k i.day) d.checkins ≡ none
  pub now_closed : find_where (is_on k i.day) d'.checkins ≡ some (d.next_checkin, row)
  pub others :
      (j : ℕ) (day : String)
      → (is_on j day row) ≡ false
      → find_where (is_on j day) d'.checkins ≡ find_where (is_on j day) d.checkins
  pub effect : Effect k d (λ _. Unit {0}) i.awarded_credits (pos 0) d'
  pub is_row : row ≡ record {
    user_id = k;
    checkin_day = i.day;
    checked_at = i.at;
    awarded_credits = i.awarded_credits;
    balance_after = effect.before.available +ℤ i.awarded_credits;
    ref_id = i.ref_id;
    remark = i.remark;
  }
  pub keyed : Keyed d'

module _ (k : ℕ) (i : ClaimInput) (s : Session) (keyed : Keyed s.db) where
  inserted : Database
  inserted = record (s.db) {
    checkins = (s.db.next_checkin, new_row k i) ∷ s.db.checkins;
    next_checkin = s.db.next_checkin + 1;
  }

  abbrev Inserts : Unit {0} → Database → Type 0
  Inserts _ d = (find_where (is_on k i.day) s.db.checkins ≡ none) × (d ≡ inserted)

  insert_checkin-OnOk : (t : Session) → t.db ≡ s.db → OnOk Inserts (insert_checkin k i t)
  unfolding insert_checkin inserted
  insert_checkin-OnOk t at = statement-OnOk _ Inserts t λ _ d e. (ground arith, ground arith)

  -- The update and the read, in a database that differs from `inserted` in users and ledger.
  update_checkin-OnOk :
      (b : ℤ) (t : Session) (id : ℕ) (c : Checkin)
      → find_where (is_on k i.day) t.db.checkins ≡ some (id, c)
      → OnOk
          (λ _ d. d ≡ record (t.db) { checkins = replace id (awarded c i b) t.db.checkins })
          (update_checkin k i b t)
  unfolding update_checkin
  update_checkin-OnOk b t id c found =
      statement-OnOk _
        (λ _ d. d ≡ record (t.db) { checkins = replace id (awarded c i b) t.db.checkins }) t
        λ _ d e. ground arith

  get_by_day-OnOk :
      (t : Session) (id : ℕ) (c : Checkin)
      → find_where (is_on k i.day) t.db.checkins ≡ some (id, c)
      → OnOk (λ r d. (r ≡ some c) × (d ≡ t.db)) (get_by_day k i.day t)
  unfolding get_by_day
  get_by_day-OnOk t id c found =
      statement-OnOk _ (λ r d. (r ≡ some c) × (d ≡ t.db)) t λ r d e. (ground arith, ground arith)

  is_on_self : is_on k i.day (new_row k i) ≡ true
  is_on_self = ground (arith, eq_iff i.day i.day)

  inserted-found :
      find_where (is_on k i.day) inserted.checkins ≡ some (s.db.next_checkin, new_row k i)
  unfolding inserted find_where
  inserted-found = rw is_on_self refl

  rows-IsKeyed :
      (n : ℕ) (c : Checkin)
      → n ≡ s.db.next_checkin + 1
      → IsKeyed n ((s.db.next_checkin, c) ∷ s.db.checkins)
  rows-IsKeyed n c next = (
    omega arith,
    find_fresh s.db.next_checkin s.db.next_checkin s.db.checkins keyed (omega arith),
    IsKeyed-mono s.db.next_checkin n s.db.checkins (omega arith) keyed,
  )

  -- The database after the award, given the one after the credit.
  closed : Database → ℤ → Database
  closed d b = record d {
    checkins = (s.db.next_checkin, awarded (new_row k i) i b) ∷ s.db.checkins;
  }

  closed-found :
      (d : Database) (b : ℤ)
      → find_where (is_on k i.day) (closed d b).checkins
        ≡ some (s.db.next_checkin, awarded (new_row k i) i b)
  unfolding closed find_where
  closed-found d b = rw is_on_self refl

  closed-others :
      (d : Database) (b : ℤ) (j : ℕ) (day : String)
      → is_on j day (awarded (new_row k i) i b) ≡ false
      → find_where (is_on j day) (closed d b).checkins ≡ find_where (is_on j day) s.db.checkins
  unfolding closed find_where
  closed-others d b j day ne = rw ne refl

  closed-Awarded :
      (d : Database) (b : ℤ)
      → find_where (is_on k i.day) s.db.checkins ≡ none
      → Credited k i.awarded_credits inserted b d
      → Awarded s.db k i (some (awarded (new_row k i) i b)) (closed d b)
  unfolding closed inserted
  closed-Awarded d b was_open c =
      let (e, same) =
        Effect-frame k inserted s.db (λ _. Unit {0}) i.awarded_credits (pos 0) d (closed d b) refl
          refl refl refl c.effect in
      let balance : b ≡ e.before.available +ℤ i.awarded_credits = rw same c.after in
      let next : (closed d b).next_checkin ≡ s.db.next_checkin + 1 =
        ap (λ (x : Database). x.next_checkin) c.frame in
      record {
        row = awarded (new_row k i) i b;
        returned = refl;
        was_open = was_open;
        now_closed = closed-found d b;
        others = λ j day ne. closed-others d b j day ne;
        effect = e;
        is_row = ap (awarded (new_row k i) i) balance;
        keyed = rows-IsKeyed (closed d b).next_checkin (awarded (new_row k i) i b) next;
      }

  replace_new :
      (c : Checkin)
      → replace s.db.next_checkin c ((s.db.next_checkin, new_row k i) ∷ s.db.checkins)
        ≡ (s.db.next_checkin, c) ∷ s.db.checkins
  unfolding replace
  replace_new c = ground arith

  abbrev ReadBack : ℤ → Database → Option Checkin → Database → Type 0
  ReadBack b d r d' = (r ≡ some (awarded (new_row k i) i b)) × (d' ≡ closed d b)

  update_and_read :
      (b : ℤ) (t : Session)
      → t.db.checkins ≡ inserted.checkins
      → OnOk (ReadBack b t.db) ((update_checkin k i b >> get_by_day k i.day) t)
  unfolding inserted closed
  update_and_read b t rows =
      OnOk-bind (update_checkin k i b) (λ _. get_by_day k i.day) (λ _ d. d ≡ closed t.db b)
        (ReadBack b t.db) t
        (OnOk-weaken (update_checkin k i b) _ (λ _ d. d ≡ closed t.db b) t
          (update_checkin-OnOk b t s.db.next_checkin (new_row k i) (rw rows inserted-found))
          λ _ d e.
            e
            ∙ ap (λ r. record (t.db) { checkins = r })
                (ap (replace s.db.next_checkin (awarded (new_row k i) i b)) rows
                  ∙ replace_new (awarded (new_row k i) i b)))
        λ _ d e t' at.
          OnOk-weaken (get_by_day k i.day) _ (ReadBack b t.db) t'
            (get_by_day-OnOk t' s.db.next_checkin (awarded (new_row k i) i b)
              (rw (at, e) (closed-found t.db b)))
            λ r d' q. (q.0, q.1 ∙ (at ∙ e))

  award-OnOk :
      (t : Session)
      → t.db ≡ inserted
      → find_where (is_on k i.day) s.db.checkins ≡ none
      → OnOk (Awarded s.db k i) (award k i t)
  unfolding award
  award-OnOk t at vacant =
      OnOk-bind (award_checkin_tx k i.awarded_credits i.ref_id i.remark)
        (λ b. update_checkin k i b >> get_by_day k i.day) (Credited k i.awarded_credits t.db)
        (Awarded s.db k i) t (award_checkin_tx-Credited k i.awarded_credits i.ref_id i.remark t)
        λ b d c t' at'.
          let c' : Credited k i.awarded_credits inserted b t'.db = rw (at', ← at) c in
          OnOk-weaken (update_checkin k i b >> get_by_day k i.day) (ReadBack b t'.db)
            (Awarded s.db k i) t'
            (update_and_read b t' (ap (λ (x : Database). x.checkins) c'.frame))
            λ r d' q. rw (q.0, q.1) (closed-Awarded t'.db b vacant c')

  claim_tx-OnOk : (t : Session) → t.db ≡ s.db → OnOk (Awarded s.db k i) (claim_tx k i t)
  unfolding claim_tx
  claim_tx-OnOk t at =
      OnOk-bind (insert_checkin k i) (λ _. award k i) Inserts (Awarded s.db k i) t
        (insert_checkin-OnOk t at) λ _ d q t' at'. award-OnOk t' (at' ∙ q.1) q.0

  abbrev row_of : Option (ℕ × Checkin) → Option Checkin
  row_of none = none
  row_of (some (id, c)) = some c

  -- A new row is an award; a row that was there is returned and changes nothing.
  abbrev pub Claims : Option Checkin × Bool → Database → Type 0
  Claims (c, true) d = Awarded s.db k i c d
  Claims (c, false) d = (d ≡ s.db) × (c ≡ row_of (find_where (is_on k i.day) s.db.checkins))

  abbrev Same : Option Checkin → Database → Type 0
  Same c d = (d ≡ s.db) × (c ≡ row_of (find_where (is_on k i.day) s.db.checkins))

  read_again :
      (t : Session)
      → t.db ≡ s.db
      → Ensures s.db Claims ((get_by_day k i.day >>= λ c. pure (c, false)) t)
  unfolding get_by_day
  read_again t at =
      Ensures-map (get_by_day k i.day) (λ c. (c, false)) Same Claims s.db t
        (rw (← at) (statement-Ensures _ Same t λ c d e. (ground arith, ground arith))) λ c d h. h

  after_claim-Ensures :
      (r : Result (Option Checkin) × Session)
      → Ensures s.db (Awarded s.db k i) r
      → Ensures s.db Claims (after_claim k i.day r)
  unfolding after_claim
  after_claim-Ensures (ok c, t) h = h
  after_claim-Ensures (err duplicate_key, t) h = read_again t h
  after_claim-Ensures (err e, t) h = ground arith

  -- Where check-in keys are distinct, `DAO.Claim` either fails and changes nothing, or returns a new
  -- row with the user, the day, the time, the amount, the new balance, the reference and the remark,
  -- for a day that had none, having added the amount to the balance and the ledger of the user and
  -- changed no other check-in, account or ledger, or returns the row that was there and changes
  -- nothing.
  pub claim-Ensures : Ensures s.db Claims (claim k i s)
  unfolding claim
  claim-Ensures =
      after_claim-Ensures (run_tx (claim_tx k i) s)
        (run_tx-Ensures (claim_tx k i) (Awarded s.db k i) s (claim_tx-OnOk (advance s) refl))
