-- ===== src/Redeem.antt =====
-- internal/redeem: codes that are generated in batches and paid out once. `upper` and `trim` are
-- Go's strings.ToUpper and strings.TrimSpace; random texts come in as arguments.
pub mod Payout
pub mod Once
mod Tests
use gpt2api.Prelude.{
  ℕ, zero, suc, ◌+◌, String, Bool, true, false, Option, none, some, List, [], ◌∷◌, ◌++◌, ◌==◌, ltb,
  not, str_eq, concat, if◌then◌else◌,
}
use gpt2api.Prelude.Int.{ℤ, pos, pos_part, leb_ℤ}
use gpt2api.Db.Table.{find, replace, find_where}
use gpt2api.Db.Rows.{Database, Code}
use gpt2api.Db.Action.{
  Error, code_not_found, code_used, code_expired, invalid_credits, invalid_quantity, duplicate_key,
  Result, ok, err, Action, pure, raise, raise_if, ◌>>=◌, ◌>>◌, statement, run_tx,
}
use gpt2api.Billing.{redeem_tx}

pub record RedeemResult : Type 0 where
  pub code : String
  pub credits : ℤ
  pub balance_after : ℤ

-- `code = ?`
abbrev pub has_code : String → Code → Bool
has_code code item = str_eq item.code code

-- `SELECT … FROM redeem_codes WHERE code = ? FOR UPDATE`: the key and the row.
pub select_code : String → Action (ℕ × Code)
select_code code = statement λ d. elim (find_where (has_code code) d.codes) [
  | none ↦ err code_not_found
  | some r ↦ ok (r, d)
]

-- `UPDATE redeem_codes SET used_by_user_id = ?, used_at = ? WHERE id = ? AND used_by_user_id = 0`
pub update_code : ℕ → ℕ → ℕ → Action ℕ
update_code id user_id now = statement λ d. elim (find id d.codes) [
  | none ↦ ok (0, d)
  | some item ↦
      if item.used_by_user_id == 0
      then ok (
        1,
        record d {
          codes =
              replace id (record item { used_by_user_id = user_id; used_at = some now }) d.codes;
        },
      )
      else ok (0, d)
]

-- `item.ExpiresAt != nil && item.ExpiresAt.Before(now)`
abbrev pub is_expired : Option ℕ → ℕ → Bool
is_expired none now = false
is_expired (some at) now = ltb at now

redeem_code_tx : ℕ → String → ℕ → Action RedeemResult
redeem_code_tx user_id code now = do
  (id, item) ← select_code code
  raise_if (not (item.used_by_user_id == 0)) code_used
  raise_if (is_expired item.expires_at now) code_expired
  n ← update_code id user_id now
  raise_if (n == 0) code_used
  balance_after ←
      redeem_tx user_id item.credits (concat "redeem:" item.code) (concat "redeem code " item.code)
  pure (record { code = item.code; credits = item.credits; balance_after = balance_after })

-- `DAO.Redeem`
pub redeem_code : ℕ → String → ℕ → Action RedeemResult
unfolding redeem_code_tx
redeem_code user_id code now =
    if str_eq code "" then raise code_not_found else run_tx (redeem_code_tx user_id code now)

-- `INSERT INTO redeem_codes`: the key is the next one, and `uk_code` keeps codes distinct.
pub insert_code : Code → Action (Unit {0})
insert_code item = statement λ d. elim (find_where (has_code item.code) d.codes) [
  | some r ↦ err duplicate_key
  | none ↦ ok (tt, record d { codes = (d.next_code, item) ∷ d.codes; next_code = d.next_code + 1 })
]

insert_codes : List Code → Action (Unit {0})
insert_codes [] = pure tt
insert_codes (item ∷ items) = insert_code item >> insert_codes items

-- `DAO.InsertBatch`
pub insert_batch : List Code → Action (Unit {0})
unfolding insert_codes
insert_batch [] = pure tt
insert_batch (item ∷ items) = run_tx (insert_codes (item ∷ items))

module _ (upper trim : String → String) where
  -- `normalizeCode`
  pub normalize_code : String → String
  normalize_code code = upper (trim code)

  -- The loop of `Generate` from its `i`-th round on; `new_code i` is the text drawn in that round.
  pub new_items : (ℕ → String) → String → ℤ → ℕ → ℕ → ℕ → List Code
  new_items new_code batch_id credits now i zero = []
  new_items new_code batch_id credits now i (suc left) =
      record {
        code = normalize_code (new_code i);
        batch_id = batch_id;
        credits = credits;
        used_by_user_id = 0;
        used_at = none;
        expires_at = none;
        created_at = now;
      }
      ∷ new_items new_code batch_id credits now (i + 1) left

  -- `Service.Generate`
  pub generate : (ℕ → String) → String → ℤ → ℤ → ℕ → Action (List Code)
  unfolding new_items
  generate new_code batch_id credits quantity now = do
    raise_if (leb_ℤ credits (pos 0)) invalid_credits
    raise_if (leb_ℤ quantity (pos 0)) invalid_quantity
    let items = new_items new_code batch_id credits now 0 (pos_part quantity)
    insert_batch items
    pure items

  -- `Service.Redeem`
  pub redeem : ℕ → String → ℕ → Action RedeemResult
  redeem user_id code now = redeem_code user_id (normalize_code code) now
