-- ===== src/Recharge/Ways.antt =====
-- Every call of internal/recharge that writes orders, and any history of them.
use gpt2api.Prelude.{
  ℕ, ◌≡◌, refl, String, Bool, true, false, not, some, Option, arith, ◌==◌, Bool-cases, inl, inr,
  str_eq, concat, if◌then◌else◌,
}
use gpt2api.Prelude.Int.{ℤ, int_laws}
use gpt2api.Db.Table.{find}
use gpt2api.Db.Keys.{find_where-find}
use gpt2api.Db.Rows.{Database, Order, cancelled}
use gpt2api.Db.Action.{
  Error, Result, Session, Action, Ensures, statement-Ensures, Ensures-bind, ◌>>=◌, ◌>>◌, raise,
  raise_if, pure, amount_mismatch, order_state_invalid, order_not_found,
}
use gpt2api.Billing.{recharge_credits}
use gpt2api.Billing.Account.{ledger}
use gpt2api.Billing.Logged.{recharge_credits-Logged}
use gpt2api.Epay.{Params, Payload}
use gpt2api.Recharge.{
  is_pending, is_paid, total_credits, update_pending, get_by_id, get_by_out_trade_no, has_trade_no,
  expire_rows, cancel_by_user, paid_row, forced_row, credit_order, settle_order, verify_amount,
  notify, admin_force_paid,
}
use gpt2api.Recharge.Owed.{owed-expire, find-expire, expire_row, expire-IsKeyed}
use gpt2api.Recharge.Steps.{Keyed, Advances, Follows, Follows-refl}
use gpt2api.Recharge.Settle.{Ending, update-then-Follows, update-Follows}

paid_row-Ending :
    (encode : Params → String) (now : ℕ) (pl : Payload) → Ending (paid_row encode now pl)
paid_row-Ending encode now pl = record {
  ended = λ o. refl;
  same_user = λ o. refl;
  same_price = λ o. refl;
  same_credits = λ o. refl;
  same_bonus = λ o. refl;
}

forced_row-Ending : (show_id : ℕ → String) (now actor : ℕ) → Ending (forced_row show_id now actor)
forced_row-Ending show_id now actor = record {
  ended = λ o. refl;
  same_user = λ o. refl;
  same_price = λ o. refl;
  same_credits = λ o. refl;
  same_bonus = λ o. refl;
}

cancelled-Ending : Ending (λ o. record o { status = cancelled })
cancelled-Ending = record {
  ended = λ o. refl;
  same_user = λ o. refl;
  same_price = λ o. refl;
  same_credits = λ o. refl;
  same_bonus = λ o. refl;
}

-- The end of a call, whatever it returns.
abbrev pub Ends : {A : Type 0} → Database → Result A × Session → Type 0
Ends d r = Follows d (r.1).db

module _ (d : Database) (keyed : Keyed d) where
  abbrev Reads : ℕ → Order → Database → Type 0
  Reads id o d' = (find id d.orders ≡ some o) × (d' ≡ d)

  get_by_id-Reads : (id : ℕ) (t : Session) → t.db ≡ d → Ensures t.db (Reads id) (get_by_id id t)
  unfolding get_by_id
  get_by_id-Reads id t at = statement-Ensures _ (Reads id) t λ o d' e. (ground arith, ground arith)

  settle_order-Ends :
      (encode : Params → String) (now id : ℕ) (o : Order) (pl : Payload) (t : Session)
      → find id d.orders ≡ some o
      → t.db ≡ d
      → Ends d (settle_order encode now id o pl t)
  unfolding settle_order
  settle_order-Ends encode now id o pl t found at =
      update-then-Follows (paid_row encode now pl) (paid_row-Ending encode now pl) id o d keyed
        found (credit_order o) (λ t'. refl)
        (λ t'.
          recharge_credits-Logged o.user_id (total_credits o) (concat "order:" o.out_trade_no)
            (concat "充值:" o.remark) t')
        t at

  pub stays : (t : Session) → t.db ≡ d → Follows d t.db
  stays t at = rw at (Follows-refl d keyed)

  after_order :
      (encode : Params → String) (fen_of : String → Option ℤ) (now id : ℕ) (o : Order)
      (pl : Payload)
      → Action (Unit {0})
  after_order encode fen_of now id o pl =
      if is_paid o.status
      then pure tt
      else if not (str_eq pl.trade_status "TRADE_SUCCESS")
      then pure tt
      else if not (verify_amount fen_of pl.money o.price_cny)
      then raise amount_mismatch
      else settle_order encode now id o pl

  after_order-Ends :
      (encode : Params → String) (fen_of : String → Option ℤ) (now id : ℕ) (o : Order)
      (pl : Payload) (t : Session)
      → find id d.orders ≡ some o
      → t.db ≡ d
      → Ends d (after_order encode fen_of now id o pl t)
  unfolding after_order
  after_order-Ends encode fen_of now id o pl t found at = elim (Bool-cases (is_paid o.status)) [
    | inl e ↦ rw e (stays t at)
    | inr e ↦ rw e (elim (Bool-cases (str_eq pl.trade_status "TRADE_SUCCESS")) [
      | inr f ↦ rw f (stays t at)
      | inl f ↦ rw f (elim (Bool-cases (verify_amount fen_of pl.money o.price_cny)) [
        | inr g ↦ rw g (stays t at)
        | inl g ↦ rw g (settle_order-Ends encode now id o pl t found at)
      ])
    ])
  ]

  abbrev Finds : ℕ × Order → Database → Type 0
  Finds r d' = (find r.0 d.orders ≡ some r.1) × (d' ≡ d)

  get_by_out_trade_no-Finds :
      (number : String) (t : Session) → t.db ≡ d → Ensures t.db Finds (get_by_out_trade_no number t)
  unfolding get_by_out_trade_no
  get_by_out_trade_no-Finds number t at = statement-Ensures _ Finds t λ r d' e. (
    find_where-find (has_trade_no number) r.0 d.next_order r.1 d.orders keyed (ground arith),
    ground arith,
  )

  pub notify-Ends :
      (encode : Params → String) (fen_of : String → Option ℤ) (now : ℕ) (pl : Payload) (t : Session)
      → t.db ≡ d
      → Ends d (notify encode fen_of now pl t)
  unfolding notify after_order
  notify-Ends encode fen_of now pl t at =
      Ensures-bind (get_by_out_trade_no pl.out_trade_no)
        (λ r. after_order encode fen_of now r.0 r.1 pl) Finds (Follows d) t
        (get_by_out_trade_no-Finds pl.out_trade_no t at) (stays t at)
        λ r t' q. after_order-Ends encode fen_of now r.0 r.1 pl t' q.0 q.1

  cancel_row : ℕ → Action (Unit {0})
  cancel_row id = update_pending id (λ x. record x { status = cancelled }) >>= λ _. pure tt

  checked_cancel : ℕ → ℕ → Order → Action (Unit {0})
  unfolding cancel_row
  checked_cancel user_id id o =
      raise_if (not (o.user_id == user_id)) order_not_found
      >> (raise_if (not (is_pending o.status)) order_state_invalid >> cancel_row id)

  raise_if-Ends :
      {A : Type 0} (b : Bool) (e : Error) (next : Action A) (t : Session)
      → t.db ≡ d
      → Ends d (next t)
      → Ends d ((raise_if b e >> next) t)
  raise_if-Ends true e next t at h = stays t at
  raise_if-Ends false e next t at h = h

  pub cancel_by_user-Ends :
      (user_id id : ℕ) (t : Session) → t.db ≡ d → Ends d (cancel_by_user user_id id t)
  unfolding cancel_by_user checked_cancel cancel_row
  cancel_by_user-Ends user_id id t at =
      Ensures-bind (get_by_id id) (checked_cancel user_id id) (Reads id) (Follows d) t
        (get_by_id-Reads id t at) (stays t at)
        λ o t' q.
          raise_if-Ends (not (o.user_id == user_id)) order_not_found
            (raise_if (not (is_pending o.status)) order_state_invalid >> cancel_row id) t' q.1
            (raise_if-Ends (not (is_pending o.status)) order_state_invalid (cancel_row id) t' q.1 (
              update-Follows (λ x. record x { status = cancelled }) cancelled-Ending id o d keyed
                q.0 (λ _. pure tt) (λ n t''. refl) t' q.1))

  force_credit : (ℕ → String) → ℕ → Order → ℕ → Action (Unit {0})
  force_credit show_id actor o n =
      raise_if (n == 0) order_state_invalid
      >> recharge_credits o.user_id (total_credits o) (concat "order:" o.out_trade_no)
          (concat "管理员手工入账:" (concat o.remark (concat " by admin=" (show_id actor))))

  force_row : (ℕ → String) → ℕ → ℕ → ℕ → Order → Action (Unit {0})
  unfolding force_credit
  force_row show_id now id actor o =
      raise_if (not (is_pending o.status)) order_state_invalid
      >> (update_pending id (forced_row show_id now actor) >>= force_credit show_id actor o)

  pub admin_force_paid-Ends :
      (show_id : ℕ → String) (now id actor : ℕ) (t : Session)
      → t.db ≡ d
      → Ends d (admin_force_paid show_id now id actor t)
  unfolding admin_force_paid force_row force_credit
  admin_force_paid-Ends show_id now id actor t at =
      Ensures-bind (get_by_id id) (force_row show_id now id actor) (Reads id) (Follows d) t
        (get_by_id-Reads id t at) (stays t at)
        λ o t' q.
          raise_if-Ends (not (is_pending o.status)) order_state_invalid
            (update_pending id (forced_row show_id now actor) >>= force_credit show_id actor o) t'
            q.1
            (update-then-Follows (forced_row show_id now actor)
              (forced_row-Ending show_id now actor) id o d keyed q.0 (force_credit show_id actor o)
              (λ _. refl)
              (λ t''.
                recharge_credits-Logged o.user_id (total_credits o) (concat "order:" o.out_trade_no)
                  (concat "管理员手工入账:" (concat o.remark (concat " by admin=" (show_id actor)))) t'')
              t' q.1)

  expire_row-Advances : (now minutes : ℕ) (o : Order) → Advances o (expire_row now minutes o)
  expire_row-Advances now minutes o = record {
    same_user = ground arith;
    same_price = ground arith;
    same_credits = ground arith;
    same_bonus = ground arith;
    is_final = λ h. rw h refl;
  }

  unfoldable pub all_expired : ℕ → ℕ → Database
  all_expired now minutes = record d { orders = expire_rows now minutes d.orders }

  all_expired-ledger : (k now minutes : ℕ) → ledger k (all_expired now minutes) ≡ ledger k d
  unfolding all_expired ledger
  all_expired-ledger k now minutes = refl

  pub all_expired-Follows : (now minutes : ℕ) → Follows d (all_expired now minutes)
  unfolding all_expired
  all_expired-Follows now minutes = record {
    keyed = expire-IsKeyed d.next_order now minutes d.orders keyed;
    orders = λ id o found. (
      expire_row now minutes o,
      find-expire id now minutes o d.orders found,
      expire_row-Advances now minutes o,
    );
    fair = λ k.
        rw (all_expired-ledger k now minutes)
          (omega (int_laws, owed-expire k now minutes d.orders));
  }
