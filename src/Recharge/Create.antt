-- ===== src/Recharge/Create.antt =====
-- `Service.Create` of internal/recharge: the checks before an order, and its insertion. The
-- gateway's URL comes from `pay_url` (which Epay models), the trade number from `crypto/rand`.
pub mod Opening
use gpt2api.Prelude.{
  ℕ, ◌+◌, String, Bool, false, Option, none, some, [], ◌∷◌, ◌&&◌, ◌==◌, leb, not, str_eq,
  if◌then◌else◌,
}
use gpt2api.Prelude.Int.{ℤ, pos, ◌+ℤ◌, ltb_ℤ, wrap64, fits_int64}
use gpt2api.Db.Table.{Table, find, find_where}
use gpt2api.Db.Rows.{Order, Package, pending}
use gpt2api.Db.Action.{
  order_not_found, package_unavailable, channel_disabled, recharge_disabled, amount_out_of_range,
  daily_limit_exceeded, bad_pay_url, duplicate_key, out_of_range, ok, err, Action, pure, raise,
  raise_if, ◌>>=◌, ◌>>◌, statement,
}
use gpt2api.Epay.{Params}
use gpt2api.Recharge.{is_paid, has_trade_no}

-- The settings that `Create` reads; 0 is no limit.
pub record Limits : Type 0 where
  pub recharge_enabled : Bool
  pub min_cny : ℤ
  pub max_cny : ℤ
  pub daily_limit_cny : ℤ

-- `config.EPayConfig`
pub record Config : Type 0 where
  pub gateway_url : String
  pub pid : String
  pub key : String

-- `CreateInput`
pub record CreateInput : Type 0 where
  pub user_id : ℕ
  pub package_id : ℕ
  pub pay_type : String
  pub client_ip : String

-- `Service.Enabled`
abbrev pub is_enabled : Config → Bool
is_enabled c = not (str_eq c.gateway_url "") && (not (str_eq c.pid "") && not (str_eq c.key ""))

-- `DAO.GetPackage`
pub get_package : ℕ → Action Package
get_package id =
    statement λ d. elim (find id d.packages) [ none ↦ err order_not_found | some p ↦ ok (p, d) ]

-- The row counts in `SumPaidTodayCNY`; `today` is CURDATE().
abbrev pub counts_today : ℕ → ℕ → Order → Bool
counts_today today user_id o =
    (o.user_id == user_id)
    && (is_paid o.status && elim o.paid_at [ none ↦ false | some at ↦ leb today at ])

pub sum_paid : ℕ → ℕ → Table Order → ℤ
sum_paid today user_id [] = pos 0
sum_paid today user_id ((id, o) ∷ t) =
    let rest = sum_paid today user_id t in
    if counts_today today user_id o then o.price_cny +ℤ rest else rest

-- `DAO.SumPaidTodayCNY`; a sum beyond int64 cannot be scanned.
pub sum_paid_today_cny : ℕ → ℕ → Action ℤ
sum_paid_today_cny today user_id = statement λ d.
    if fits_int64 (sum_paid today user_id d.orders)
    then ok (sum_paid today user_id d.orders, d)
    else err out_of_range

-- The range and the daily limit.
pub check_limits : Option Limits → ℕ → ℕ → ℤ → Action (Unit {0})
check_limits none today user_id price = pure tt
check_limits (some l) today user_id price =
    raise_if (ltb_ℤ (pos 0) l.min_cny && ltb_ℤ price l.min_cny) amount_out_of_range
    >> (raise_if (ltb_ℤ (pos 0) l.max_cny && ltb_ℤ l.max_cny price) amount_out_of_range
        >> (if ltb_ℤ (pos 0) l.daily_limit_cny
            then (sum_paid_today_cny today user_id >>= λ already.
                raise_if (ltb_ℤ l.daily_limit_cny (wrap64 (already +ℤ price))) daily_limit_exceeded)
            else pure tt))

-- The order that `Create` inserts at a time.
abbrev pub new_order : CreateInput → Package → String → String → ℕ → Order
new_order i p trade_no url now = record {
  out_trade_no = trade_no;
  user_id = i.user_id;
  package_id = i.package_id;
  price_cny = p.price_cny;
  credits = p.credits;
  bonus = p.bonus;
  channel = "epay";
  pay_method = i.pay_type;
  status = pending;
  trade_no = "";
  paid_at = none;
  pay_url = url;
  client_ip = i.client_ip;
  notify_raw = none;
  remark = p.name;
  created_at = now;
}

-- `DAO.CreateOrder`; `uk_out_trade_no` keeps the trade numbers distinct.
pub create_order : Order → Action ℕ
create_order o = statement λ d. elim (find_where (has_trade_no o.out_trade_no) d.orders) [
  | some r ↦ err duplicate_key
  | none ↦ ok (
    d.next_order,
    record d { orders = (d.next_order, o) ∷ d.orders; next_order = d.next_order + 1 },
  )
]

-- `Service.Create`: the key of the order and the order.
pub create :
    Config
    → Option Limits
    → (String → Package → Params → Option String)
    → String
    → ℕ
    → ℕ
    → CreateInput
    → Action (ℕ × Order)
create config limits pay_url trade_no today now i = do
  raise_if (not (is_enabled config)) channel_disabled
  raise_if (elim limits [ none ↦ false | some l ↦ not l.recharge_enabled ]) recharge_disabled
  p ← get_package i.package_id
  raise_if (not p.enabled) package_unavailable
  check_limits limits today i.user_id p.price_cny
  let extra : Params = if str_eq i.pay_type "" then [] else ("type", i.pay_type) ∷ []
  elim (pay_url trade_no p extra) [
    | none ↦ raise bad_pay_url
    | some url ↦ let o = new_order i p trade_no url now in create_order o >>= λ id. pure (id, o)
  ]
