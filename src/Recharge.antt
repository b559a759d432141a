-- ===== src/Recharge.antt =====
-- internal/recharge: orders, their payment and their cancellation. The gateway's payload arrives
-- parsed (`parse`, which Epay models); `fen_of` reads an amount in yuan as fen, `encode` is the
-- text of a form and `show_id` of a key. The mail after a settlement is left out: it changes no
-- table and its failures are ignored.
pub mod Create
pub mod Owed
pub mod Steps
pub mod Settle
pub mod Ways
pub mod History
mod Tests
use gpt2api.Prelude.{
  ℕ, zero, ◌+◌, ◌*◌, String, Bool, true, false, Option, none, some, List, [], ◌∷◌, ◌&&◌, ◌==◌, ltb,
  leb, not, str_eq, concat, if◌then◌else◌,
}
use gpt2api.Prelude.Int.{ℤ, pos, pos_part, ◌+ℤ◌, ltb_ℤ, leb_ℤ, wrap64, fits_int64}
use gpt2api.Db.Table.{Table, find, replace, find_where}
use gpt2api.Db.Rows.{
  Database, Order, Package, OrderStatus, pending, paid, expired, cancelled, failed,
}
use gpt2api.Db.Action.{
  Error, order_not_found, order_state_invalid, package_unavailable, channel_disabled,
  recharge_disabled, amount_out_of_range, daily_limit_exceeded, invalid_sign, amount_mismatch,
  bad_pay_url, duplicate_key, out_of_range, Result, ok, err, Session, Action, pure, raise, raise_if,
  ◌>>=◌, ◌>>◌, statement,
}
use gpt2api.Epay.{Params, Payload}
use gpt2api.Billing.{recharge_credits}

abbrev pub is_pending : OrderStatus → Bool
is_pending pending = true
is_pending _ = false

abbrev pub is_paid : OrderStatus → Bool
is_paid paid = true
is_paid _ = false

-- `Order.TotalCredits`
abbrev pub total_credits : Order → ℤ
total_credits o = wrap64 (o.credits +ℤ o.bonus)

-- `DAO.GetByID`
pub get_by_id : ℕ → Action Order
get_by_id id =
    statement λ d. elim (find id d.orders) [ none ↦ err order_not_found | some o ↦ ok (o, d) ]

abbrev pub has_trade_no : String → Order → Bool
has_trade_no out_trade_no o = str_eq o.out_trade_no out_trade_no

-- `DAO.GetByOutTradeNo`, with the key.
pub get_by_out_trade_no : String → Action (ℕ × Order)
get_by_out_trade_no out_trade_no = statement λ d.
    elim (find_where (has_trade_no out_trade_no) d.orders) [
      | none ↦ err order_not_found
      | some r ↦ ok (r, d)
    ]

-- `UPDATE recharge_orders SET … WHERE id = ? AND status = 'pending'`: the affected rows.
pub update_pending : ℕ → (Order → Order) → Action ℕ
update_pending id write = statement λ d. elim (find id d.orders) [
  | none ↦ ok (0, d)
  | some o ↦
      if is_pending o.status
      then ok (1, record d { orders = replace id (write o) d.orders })
      else ok (0, d)
]

-- The orders of a table that have waited for more than `minutes`.
abbrev pub is_overdue : ℕ → ℕ → Order → Bool
is_overdue now minutes o = is_pending o.status && ltb (o.created_at + minutes * 60) now

pub expire_rows : ℕ → ℕ → Table Order → Table Order
expire_rows now minutes [] = []
expire_rows now minutes ((id, o) ∷ t) =
    let rest = expire_rows now minutes t in
    if is_overdue now minutes o then (id, record o { status = expired }) ∷ rest else (id, o) ∷ rest

pub count_overdue : ℕ → ℕ → Table Order → ℕ
count_overdue now minutes [] = 0
count_overdue now minutes ((id, o) ∷ t) =
    let rest = count_overdue now minutes t in if is_overdue now minutes o then rest + 1 else rest

-- `DAO.ExpirePending`
pub expire_pending : ℕ → ℤ → Action ℕ
expire_pending now minutes =
    let m = if leb_ℤ minutes (pos 0) then 30 else pos_part minutes in
    statement
      λ d. ok (count_overdue now m d.orders, record d { orders = expire_rows now m d.orders })

-- `Service.CancelByUser`
pub cancel_by_user : ℕ → ℕ → Action (Unit {0})
cancel_by_user user_id order_id = do
  o ← get_by_id order_id
  raise_if (not (o.user_id == user_id)) order_not_found
  raise_if (not (is_pending o.status)) order_state_invalid
  n ← update_pending order_id (λ x. record x { status = cancelled })
  pure tt

-- What the CAS of `settle` writes.
abbrev pub paid_row : (Params → String) → ℕ → Payload → Order → Order
paid_row encode now pl o = record o {
  status = paid;
  trade_no = pl.trade_no;
  pay_method = pl.pay_type;
  paid_at = some now;
  notify_raw = elim pl.raw [ [] ↦ none | x ∷ xs ↦ some (encode pl.raw) ];
}

-- The second half of `settle`: nothing where another call had settled the order.
abbrev pub credit_order : Order → ℕ → Action (Unit {0})
credit_order o n =
    if n == 0
    then pure tt
    else recharge_credits o.user_id (total_credits o) (concat "order:" o.out_trade_no)
        (concat "充值:" o.remark)

-- `Service.settle`
pub settle_order : (Params → String) → ℕ → ℕ → Order → Payload → Action (Unit {0})
settle_order encode now id o pl = update_pending id (paid_row encode now pl) >>= credit_order o

-- `verifyAmount`
abbrev pub verify_amount : (String → Option ℤ) → String → ℤ → Bool
verify_amount fen_of money want = elim (fen_of money) [
  | none ↦ false
  | some got ↦ leb_ℤ got want && leb_ℤ want got
]

-- The answer to the gateway, `success` or `fail`, and the error if there is one.
pub record Reply : Type 0 where
  pub text : String
  pub error : Option Error

abbrev pub reply_of : Result (Unit {0}) × Session → Reply × Session
reply_of (ok x, s) = (record { text = "success"; error = none }, s)
reply_of (err e, s) = (record { text = "fail"; error = some e }, s)

-- The body of `HandleNotify` once the payload is known.
pub notify : (Params → String) → (String → Option ℤ) → ℕ → Payload → Action (Unit {0})
notify encode fen_of now pl = get_by_out_trade_no pl.out_trade_no >>= λ r.
    if is_paid (r.1).status
    then pure tt
    else if not (str_eq pl.trade_status "TRADE_SUCCESS")
    then pure tt
    else if not (verify_amount fen_of pl.money (r.1).price_cny)
    then raise amount_mismatch
    else settle_order encode now r.0 r.1 pl

-- `Service.HandleNotify`
pub handle_notify :
    (Params → Option Payload)
    → (Params → String)
    → (String → Option ℤ)
    → ℕ
    → Params
    → Session
    → Reply × Session
handle_notify parse encode fen_of now form s = elim (parse form) [
  | none ↦ reply_of (err invalid_sign, s)
  | some pl ↦ reply_of (notify encode fen_of now pl s)
]

-- What `AdminForcePaid` writes: a trade number only where there was none.
abbrev pub forced_row : (ℕ → String) → ℕ → ℕ → Order → Order
forced_row show_id now actor_id o = record o {
  status = paid;
  paid_at = some now;
  trade_no = if str_eq o.trade_no "" then concat "manual-" (show_id actor_id) else o.trade_no;
}

-- `Service.AdminForcePaid`
pub admin_force_paid : (ℕ → String) → ℕ → ℕ → ℕ → Action (Unit {0})
admin_force_paid show_id now order_id actor_id = do
  o ← get_by_id order_id
  raise_if (not (is_pending o.status)) order_state_invalid
  n ← update_pending order_id (forced_row show_id now actor_id)
  raise_if (n == 0) order_state_invalid
  recharge_credits o.user_id (total_credits o) (concat "order:" o.out_trade_no)
      (concat "管理员手工入账:" (concat o.remark (concat " by admin=" (show_id actor_id))))
