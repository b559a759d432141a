-- ===== src/Redeem/Tests.antt =====
-- internal/redeem on concrete data, and its theorems at concrete inputs.
use gpt2api.Prelude.{refl, ◌≤◌, false, none, some, List, [], ◌∷◌, arith}
use gpt2api.Prelude.Int.{pos}
use gpt2api.Db.Table.{find}
use gpt2api.Db.Keys.{IsKeyed}
use gpt2api.Db.Rows.{Database, User, Code}
use gpt2api.Db.Action.{Session, Ensures}
use gpt2api.Redeem.{redeem_code}
use gpt2api.Redeem.Payout.{Payout, redeem_code-Ensures}
use gpt2api.Redeem.Once.{Attempt, AllNamed, payouts, payouts-le-one}

abbrev gift : Code
gift = record {
  code = "GIFT";
  batch_id = "b";
  credits = pos 50;
  used_by_user_id = 0;
  used_at = none;
  expires_at = some 900;
  created_at = 1;
}

abbrev winner : User
winner = record { credit_balance = pos 5; credit_frozen = pos 0; version = 0; deleted = false }

abbrev gifts : Database
gifts = record {
  users = (1, winner) ∷ (2, winner) ∷ [];
  transactions = [];
  codes = (1, gift) ∷ [];
  checkins = [];
  orders = [];
  packages = [];
  next_code = 2;
  next_checkin = 1;
  next_order = 1;
}

abbrev quiet : Session
quiet = record { db = gifts; turn = 0; faulty = λ _. false }

gifts-IsKeyed : IsKeyed 2 gifts.codes
unfolding find
gifts-IsKeyed = (omega arith, refl, tt)

redeem_code-Ensures_example :
    Ensures gifts (Payout gifts 1 700 "GIFT") (redeem_code 1 "GIFT" 700 quiet)
redeem_code-Ensures_example = redeem_code-Ensures 1 700 "GIFT" quiet gifts-IsKeyed

-- The first attempt pays and the second and third do not.
abbrev attempts : List Attempt
attempts =
    record { user_id = 1; code = "GIFT"; now = 700 }
    ∷ record { user_id = 2; code = "GIFT"; now = 701 }
    ∷ record { user_id = 1; code = "GIFT"; now = 702 }
    ∷ []

attempts-AllNamed : AllNamed attempts
attempts-AllNamed = (omega arith, (omega arith, (omega arith, tt)))

payouts-le-one_example : payouts "GIFT" attempts quiet ≤ 1
payouts-le-one_example = payouts-le-one "GIFT" attempts quiet attempts-AllNamed gifts-IsKeyed
