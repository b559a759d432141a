-- ===== src/Redeem/Payout.antt =====
-- What a redemption of internal/redeem/dao.go does when it succeeds.
use gpt2api.Prelude.{
  ℕ, String, ◌≡◌, refl, ap, ◌∙◌, false, some, arith, ◌==◌, not, str_eq, concat, Bool-cases, inl,
  inr,
}
use gpt2api.Prelude.Int.{pos, ◌+ℤ◌, leb_ℤ}
use gpt2api.Db.Table.{find, replace, find_where}
use gpt2api.Db.Keys.{IsKeyed, find_where-find}
use gpt2api.Db.Rows.{Database, Code}
use gpt2api.Db.Action.{
  code_used, code_expired, Session, Action, pure, raise_if, ◌>>=◌, ◌>>◌, OnOk, OnOk-bind,
  raise_if-bind, statement-OnOk, Ensures, run_tx-Ensures, advance,
}
use gpt2api.Billing.{redeem_tx}
use gpt2api.Billing.Credit.{Credited, redeem_tx-Credited}
use gpt2api.Billing.Account.{Effect, Effect-frame}
use gpt2api.Redeem.{
  RedeemResult, has_code, select_code, update_code, is_expired, redeem_code_tx, redeem_code,
}

-- The row of a code that user `k` took at time `now`.
abbrev pub taken : Code → ℕ → ℕ → Code
taken item k now = record item { used_by_user_id = k; used_at = some now }

-- User `k` got the credits of an unused code in time, the code is marked as taken, and no other
-- code, account or ledger changed.
pub record Payout (d : Database) (k now : ℕ) (code : String) (r : RedeemResult) (d' : Database)
    : Type 0 where
  pub id : ℕ
  pub item : Code
  pub found : find_where (has_code code) d.codes ≡ some (id, item)
  pub unused : item.used_by_user_id ≡ 0
  pub in_time : is_expired item.expires_at now ≡ false
  pub positive : leb_ℤ item.credits (pos 0) ≡ false
  pub effect : Effect k d (λ _. Unit {0}) item.credits (pos 0) d'
  pub codes_now : d'.codes ≡ replace id (taken item k now) d.codes
  pub next_same : d'.next_code ≡ d.next_code
  pub result : r ≡ record {
    code = item.code;
    credits = item.credits;
    balance_after = effect.before.available +ℤ item.credits;
  }

module _ (k now : ℕ) (code : String) (s : Session) (keyed : IsKeyed s.db.next_code s.db.codes) where
  abbrev Selects : ℕ × Code → Database → Type 0
  Selects r d = (find_where (has_code code) s.db.codes ≡ some r) × (d ≡ s.db)

  select_code-OnOk : (t : Session) → t.db ≡ s.db → OnOk Selects (select_code code t)
  unfolding select_code
  select_code-OnOk t at = statement-OnOk _ Selects t λ r d e. (ground arith, ground arith)

  marked : ℕ → Code → Database
  marked id item = record (s.db) { codes = replace id (taken item k now) s.db.codes }

  update_code-OnOk :
      (id : ℕ) (item : Code) (t : Session)
      → t.db ≡ s.db
      → find id s.db.codes ≡ some item
      → item.used_by_user_id ≡ 0
      → OnOk (λ n d. d ≡ marked id item) (update_code id k now t)
  unfolding update_code marked
  update_code-OnOk id item t at found unused =
      statement-OnOk _ (λ n d. d ≡ marked id item) t λ n d e. ground arith

  pay :
      (id : ℕ) (item : Code) (t : Session)
      → find_where (has_code code) s.db.codes ≡ some (id, item)
      → item.used_by_user_id ≡ 0
      → is_expired item.expires_at now ≡ false
      → t.db ≡ marked id item
      → OnOk (Payout s.db k now code) (
          (redeem_tx k item.credits (concat "redeem:" item.code) (concat "redeem code " item.code)
              >>= λ b.
                  pure (record { code = item.code; credits = item.credits; balance_after = b }))
            t)
  unfolding marked
  pay id item t found unused in_time at =
      OnOk-bind
        (redeem_tx k item.credits (concat "redeem:" item.code) (concat "redeem code " item.code))
        (λ b. pure (record { code = item.code; credits = item.credits; balance_after = b }))
        (Credited k item.credits t.db) (Payout s.db k now code) t
        (redeem_tx-Credited k item.credits (concat "redeem:" item.code)
          (concat "redeem code " item.code) t)
        λ b d c t' at'.
          let c' : Credited k item.credits (marked id item) b t'.db = rw (at', ← at) c in
          let (e, same) =
            Effect-frame k (marked id item) s.db (λ _. Unit {0}) item.credits (pos 0) t'.db t'.db
              refl refl refl refl c'.effect in
          record {
            id = id;
            item = item;
            found = found;
            unused = unused;
            in_time = in_time;
            positive = c'.positive;
            effect = e;
            codes_now = ap (λ x. x.codes) c'.frame;
            next_same = ap (λ x. x.next_code) c'.frame;
            result = rw (c'.after, same) refl;
          }

  pay_out : Code → Action RedeemResult
  pay_out item =
      redeem_tx k item.credits (concat "redeem:" item.code) (concat "redeem code " item.code)
      >>= λ b. pure (record { code = item.code; credits = item.credits; balance_after = b })

  mark_and_pay : ℕ → Code → Action RedeemResult
  unfolding pay_out
  mark_and_pay id item = update_code id k now >>= λ n. raise_if (n == 0) code_used >> pay_out item

  mark_and_pay-OnOk :
      (id : ℕ) (item : Code) (t : Session)
      → find_where (has_code code) s.db.codes ≡ some (id, item)
      → item.used_by_user_id ≡ 0
      → is_expired item.expires_at now ≡ false
      → t.db ≡ s.db
      → OnOk (Payout s.db k now code) (mark_and_pay id item t)
  unfolding mark_and_pay
  mark_and_pay-OnOk id item t found unused in_time at =
      OnOk-bind (update_code id k now) (λ n. raise_if (n == 0) code_used >> pay_out item)
        (λ n d. d ≡ marked id item) (Payout s.db k now code) t
        (update_code-OnOk id item t at
          (find_where-find (has_code code) id s.db.next_code item s.db.codes keyed found) unused)
        λ n d at_marked t' at'.
          raise_if-bind (n == 0) code_used (pay_out item) (Payout s.db k now code) t'
            λ hit. pay id item t' found unused in_time (at' ∙ at_marked)

  redeem_code_tx-OnOk :
      (t : Session) → t.db ≡ s.db → OnOk (Payout s.db k now code) (redeem_code_tx k code now t)
  unfolding redeem_code_tx mark_and_pay
  redeem_code_tx-OnOk t at =
      OnOk-bind (select_code code) rest Selects (Payout s.db k now code) t (select_code-OnOk t at)
        λ r d q t' at'. after_select r.0 r.1 t' q.0 (at' ∙ q.1)
    where
      rest : ℕ × Code → Action RedeemResult
      rest (id, item) =
          raise_if (not (item.used_by_user_id == 0)) code_used
          >> (raise_if (is_expired item.expires_at now) code_expired >> mark_and_pay id item)

      after_select :
          (id : ℕ) (item : Code) (t' : Session)
          → find_where (has_code code) s.db.codes ≡ some (id, item)
          → t'.db ≡ s.db
          → OnOk (Payout s.db k now code) (rest (id, item) t')
      after_select id item t' found at' =
          raise_if-bind (not (item.used_by_user_id == 0)) code_used
            (raise_if (is_expired item.expires_at now) code_expired >> mark_and_pay id item) _ t'
            λ unused.
              raise_if-bind (is_expired item.expires_at now) code_expired (mark_and_pay id item) _
                t' λ in_time. mark_and_pay-OnOk id item t' found (ground arith) in_time at'

  -- Where code keys are distinct, a successful `DAO.Redeem` is a payout; one that fails changes nothing.
  pub redeem_code-Ensures : Ensures s.db (Payout s.db k now code) (redeem_code k code now s)
  unfolding redeem_code
  redeem_code-Ensures = elim (Bool-cases (str_eq code "")) [
    | inl empty ↦ rw empty refl
    | inr given ↦ rw given (
        run_tx-Ensures (redeem_code_tx k code now) (Payout s.db k now code) s
          (redeem_code_tx-OnOk (advance s) refl))
  ]
