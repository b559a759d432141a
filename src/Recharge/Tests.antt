-- ===== src/Recharge/Tests.antt =====
-- internal/recharge on concrete data, and its theorems at concrete inputs.
use gpt2api.Prelude.{
  true, ℕ, String, ◌≡◌, refl, false, Option, none, some, List, [], ◌∷◌, arith, ◌==◌,
}
use gpt2api.Prelude.Int.{ℤ, pos, ◌+ℤ◌, ◌≤ℤ◌}
use gpt2api.Db.Table.{find}
use gpt2api.Db.Keys.{IsKeyed}
use gpt2api.Db.Rows.{Database, User, Order, Package, pending}
use gpt2api.Recharge.Create.{Limits, Config, CreateInput, create}
use gpt2api.Recharge.Create.Opening.{Opened, create-Opened}
use gpt2api.Db.Action.{OnOk, Session}
use gpt2api.Epay.{Params, Payload}
use gpt2api.Billing.Account.{ledger}
use gpt2api.Recharge.Owed.{owed}
use gpt2api.Recharge.Steps.{Advances}
use gpt2api.Recharge.History.{Call, callback, cancel, expire, force, run, run-credits, run-Advances}

abbrev buyer : User
buyer = record { credit_balance = pos 0; credit_frozen = pos 0; version = 0; deleted = false }

abbrev sale : Order
sale = record {
  out_trade_no = "n1";
  user_id = 1;
  package_id = 1;
  price_cny = pos 1200;
  credits = pos 100;
  bonus = pos 20;
  channel = "epay";
  pay_method = "";
  status = pending;
  trade_no = "";
  paid_at = none;
  pay_url = "u";
  client_ip = "";
  notify_raw = none;
  remark = "";
  created_at = 10;
}

abbrev till : Database
till = record {
  users = (1, buyer) ∷ [];
  transactions = [];
  codes = [];
  checkins = [];
  orders = (1, sale) ∷ [];
  packages = [];
  next_code = 1;
  next_checkin = 1;
  next_order = 2;
}

-- The third operation, the BEGIN of the credit, fails.
abbrev shaky : Session
shaky = record { db = till; turn = 0; faulty = λ n. n == 2 }

abbrev accept : Params → Option Payload
accept form = some (record {
  out_trade_no = "n1";
  trade_no = "t";
  trade_status = "TRADE_SUCCESS";
  name = "";
  money = "12.00";
  pay_type = "alipay";
  raw = form;
})

abbrev text_of : Params → String
text_of form = "raw"

abbrev twelve : String → Option ℤ
twelve money = some (pos 1200)

abbrev digits : ℕ → String
digits n = "7"

abbrev calls : List Call
calls =
    callback 20 []
    ∷ callback 21 []
    ∷ cancel 1 1
    ∷ expire 9000 (pos 0)
    ∷ force 9100 1 7
    ∷ callback 9200 []
    ∷ []

till-IsKeyed : IsKeyed 2 till.orders
unfolding find
till-IsKeyed = (omega arith, refl, tt)

run-credits_example :
    ledger 1 (run accept text_of twelve digits calls shaky).db
      +ℤ pos (owed 1 (run accept text_of twelve digits calls shaky).db.orders)
    ≤ℤ ledger 1 till +ℤ pos (owed 1 till.orders)
run-credits_example = run-credits accept text_of twelve digits calls shaky till-IsKeyed 1

run-Advances_example :
    (o' : Order) × (find 1 (run accept text_of twelve digits calls shaky).db.orders ≡ some o')
    × Advances sale o'
unfolding find
run-Advances_example =
    run-Advances accept text_of twelve digits calls shaky till-IsKeyed 1 sale refl

abbrev limits : Limits
limits = record {
  recharge_enabled = true;
  min_cny = pos 100;
  max_cny = pos 0;
  daily_limit_cny = pos 5000;
}

abbrev config : Config
config = record { gateway_url = "https://pay"; pid = "1"; key = "k" }

abbrev wish : CreateInput
wish = record { user_id = 1; package_id = 1; pay_type = "alipay"; client_ip = "" }

abbrev shelf : Database
shelf = record till {
  packages =
      (
        1,
        record { name = "p"; price_cny = pos 1200; credits = pos 9; bonus = pos 0; enabled = true },
      )
      ∷ [];
}

abbrev open_till : Session
open_till = record { db = shelf; turn = 0; faulty = λ _. false }

abbrev link : String → Package → Params → Option String
link trade_no p extra = some "https://pay/?sign"

create-Opened_example :
    OnOk
      (Opened (some limits) "n2" 0 50 wish shelf)
      (create config (some limits) link "n2" 0 50 wish open_till)
create-Opened_example = create-Opened (some limits) "n2" 0 50 wish shelf config link open_till refl
