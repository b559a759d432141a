-- ===== src/Db/Rows.antt =====
-- The rows of the tables in sql/migrations that the modelled code reads or writes, by the columns
-- that it uses. `deleted` is `deleted_at IS NOT NULL`; a time is a number of seconds.
use gpt2api.Prelude.{ℕ, String, Bool, Option, List}
use gpt2api.Prelude.Int.{ℤ}
use gpt2api.Db.Table.{Table}

-- `users`
pub record User : Type 0 where
  pub credit_balance : ℤ
  pub credit_frozen : ℤ
  pub version : ℕ
  pub deleted : Bool

-- internal/billing/engine.go, the Kind constants
pub data Kind : Type 0 where
  freeze unfreeze consume refund recharge redeem checkin adjust : Kind

-- `credit_transactions`
pub record Transaction : Type 0 where
  pub user_id : ℕ
  pub key_id : ℕ
  pub kind : Kind
  pub amount : ℤ
  pub balance_after : ℤ
  pub ref_id : String
  pub remark : String

-- internal/redeem/model.go, `Code`
pub record Code : Type 0 where
  pub code : String
  pub batch_id : String
  pub credits : ℤ
  pub used_by_user_id : ℕ
  pub used_at : Option ℕ
  pub expires_at : Option ℕ
  pub created_at : ℕ

-- internal/checkin/service.go, `Record`
pub record Checkin : Type 0 where
  pub user_id : ℕ
  pub checkin_day : String
  pub checked_at : ℕ
  pub awarded_credits : ℤ
  pub balance_after : ℤ
  pub ref_id : String
  pub remark : String

-- internal/recharge/model.go, the order states
pub data OrderStatus : Type 0 where
  pending paid expired cancelled failed : OrderStatus

-- internal/recharge/model.go, `Order`
pub record Order : Type 0 where
  pub out_trade_no : String
  pub user_id : ℕ
  pub package_id : ℕ
  pub price_cny : ℤ
  pub credits : ℤ
  pub bonus : ℤ
  pub channel : String
  pub pay_method : String
  pub status : OrderStatus
  pub trade_no : String
  pub paid_at : Option ℕ
  pub pay_url : String
  pub client_ip : String
  pub notify_raw : Option String
  pub remark : String
  pub created_at : ℕ

-- internal/recharge/model.go, `Package`
pub record Package : Type 0 where
  pub name : String
  pub price_cny : ℤ
  pub credits : ℤ
  pub bonus : ℤ
  pub enabled : Bool

pub record Database : Type 0 where
  pub users : Table User
  pub transactions : List Transaction
  pub codes : Table Code
  pub checkins : Table Checkin
  pub orders : Table Order
  pub packages : Table Package
  -- the next AUTO_INCREMENT key of each table that the code inserts into
  pub next_code : ℕ
  pub next_checkin : ℕ
  pub next_order : ℕ
