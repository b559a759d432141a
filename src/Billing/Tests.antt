-- ===== src/Billing/Tests.antt =====
-- internal/billing on concrete data, and its theorems at concrete inputs.
use gpt2api.Prelude.{◌≡◌, refl, false, true, List, [], ◌∷◌, arith, ◌==◌}
use gpt2api.Prelude.Int.{pos, ◌+ℤ◌, ◌-ℤ◌, ◌≤ℤ◌, wrap64}
use gpt2api.Db.Table.{find, replace}
use gpt2api.Db.Rows.{Database, User}
use gpt2api.Db.Action.{err, driver, insufficient, Session, ◌>>◌, Ensures, statement, run_tx}
use gpt2api.Billing.{
  update_users, select_balance, insert_transaction, neg64, pre_deduct, settle, refund_credits,
  recharge_credits,
}
use gpt2api.Billing.Account.{Account, account, ledger}
use gpt2api.Billing.Effects.{
  Moves, pre_deduct-Moves, settle-Moves, refund_credits-Moves, recharge_credits-Moves,
  recharge_credits_deleted,
}
use gpt2api.Billing.History.{Call, reserve, finish, give_back, run, IsSound, run-IsSound}
use gpt2api.Billing.Calm.{calm, Holds}
use gpt2api.Billing.Lifecycle.{reserve_then_settle}

abbrev alice : User
alice = record { credit_balance = pos 500; credit_frozen = pos 40; version = 3; deleted = false }

abbrev bob : User
bob = record { credit_balance = pos 7; credit_frozen = pos 0; version = 0; deleted = true }

abbrev shop : Database
shop = record {
  users = (1, alice) ∷ (2, bob) ∷ [];
  transactions = [];
  codes = [];
  checkins = [];
  orders = [];
  packages = [];
  next_code = 1;
  next_checkin = 1;
  next_order = 1;
}

-- The COMMIT of the first call fails.
abbrev flaky : Session
flaky = record { db = shop; turn = 0; faulty = λ n. n == 4 }

failed_commit : pre_deduct 1 9 (pos 100) "r" "" flaky ≡ (err driver, record flaky { turn = 5 })
unfolding pre_deduct update_users select_balance insert_transaction statement run_tx find replace
    ◌+ℤ◌ ◌-ℤ◌ neg64 wrap64
failed_commit = refl

too_much : (pre_deduct 1 9 (pos 501) "r" "" (calm shop 0)).0 ≡ err insufficient
unfolding pre_deduct update_users statement run_tx find
too_much = refl

pre_deduct-Moves_example :
    Moves 1
      (λ a. pos 100 ≤ℤ a.available)
      (pos 0 -ℤ pos 100)
      (pos 100)
      flaky
      (pre_deduct 1 9 (pos 100) "r" "" flaky)
pre_deduct-Moves_example =
    pre_deduct-Moves 1 9 "r" "" flaky (pos 100) (omega arith)
      (record { above = omega arith; below = omega arith })

settle-Moves_example :
    Moves 1
      (λ a. pos 40 ≤ℤ a.frozen)
      (pos 40 -ℤ pos 15)
      (pos 0 -ℤ pos 40)
      (calm shop 0)
      (settle 1 9 (pos 40) (pos 15) "r" "" (calm shop 0))
unfolding ◌+ℤ◌
settle-Moves_example =
    settle-Moves 1 9 "r" "" (calm shop 0) (pos 40) (pos 15) (omega arith)
      (record { above = omega arith; below = omega arith }) (omega arith)
      (record { above = omega arith; below = omega arith }) (omega arith)

refund_credits-Moves_example :
    Moves 1
      (λ a. pos 40 ≤ℤ a.frozen)
      (pos 40)
      (pos 0 -ℤ pos 40)
      (calm shop 0)
      (refund_credits 1 9 (pos 40) "r" "" (calm shop 0))
refund_credits-Moves_example = refund_credits-Moves 1 9 "r" "" (calm shop 0) (pos 40) (omega arith)

recharge_credits-Moves_example :
    Moves 1 (λ _. Unit {0}) (pos 25) (pos 0) flaky (recharge_credits 1 (pos 25) "o" "" flaky)
unfolding account find
recharge_credits-Moves_example =
    recharge_credits-Moves 1 (pos 25) (omega arith) "o" "" flaky
      (record { available = pos 500; frozen = pos 40; is_deleted = false }) refl refl

abbrev bob_account : Account
bob_account = record { available = pos 7; frozen = pos 0; is_deleted = true }

recharge_credits_deleted_example :
    Ensures shop
      (λ _ d'. (account 2 d' ≡ account 2 shop) × (ledger 2 d' ≡ ledger 2 shop +ℤ pos 25))
      (recharge_credits 2 (pos 25) "o" "" (calm shop 0))
unfolding account find
recharge_credits_deleted_example =
    recharge_credits_deleted 2 (pos 25) (omega arith) "o" "" (calm shop 0) bob_account refl refl

-- A failed commit, an over-reservation, and a settled request, by two users.
abbrev day : List Call
day =
    reserve 1 9 (pos 100) "a" ""
    ∷ reserve 2 9 (pos 100) "b" ""
    ∷ reserve 1 9 (pos 300) "c" ""
    ∷ finish 1 9 (pos 300) (pos 120) "c" ""
    ∷ give_back 1 9 (pos 40) "d" ""
    ∷ []

run-IsSound_example : IsSound 1 (pos 500) (run day flaky).db
unfolding account find ledger ◌+ℤ◌
run-IsSound_example = run-IsSound 1 (pos 500) day flaky (omega arith) (record {
  acct = record { available = pos 500; frozen = pos 40; is_deleted = false };
  is_there = refl;
  solvent = omega arith;
  reserve_ok = omega arith;
  explained = refl;
})

reserve_then_settle_example :
    Holds 1
      (pos 500 -ℤ pos 60)
      (pos 40)
      (ledger 1 shop -ℤ pos 60)
      ((pre_deduct 1 9 (pos 100) "r" "" >> settle 1 9 (pos 100) (pos 60) "r" "") (calm shop 0))
unfolding find ◌+ℤ◌
reserve_then_settle_example =
    reserve_then_settle 1 9 (pos 100) "r" "" shop 0 alice refl refl (omega arith)
      (record { above = omega arith; below = omega arith }) (pos 60) (omega arith) (omega arith)
      (omega arith) (omega arith) (record { above = omega arith; below = omega arith })
      (record { above = omega arith; below = omega arith })
