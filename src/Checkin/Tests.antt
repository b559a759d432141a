-- ===== src/Checkin/Tests.antt =====
-- internal/checkin on concrete data, and its theorems at concrete inputs.
use gpt2api.Prelude.{◌≤◌, false, List, [], ◌∷◌, ◌==◌}
use gpt2api.Prelude.Int.{pos}
use gpt2api.Db.Rows.{Database, User}
use gpt2api.Db.Action.{Session, Ensures}
use gpt2api.Checkin.{ClaimInput, claim}
use gpt2api.Checkin.Award.{Claims, claim-Ensures}
use gpt2api.Checkin.Daily.{Visit, awards, awards-le-one}

abbrev guest : User
guest = record { credit_balance = pos 5; credit_frozen = pos 0; version = 0; deleted = false }

abbrev opening : Database
opening = record {
  users = (1, guest) ∷ (2, guest) ∷ [];
  transactions = [];
  codes = [];
  checkins = [];
  orders = [];
  packages = [];
  next_code = 1;
  next_checkin = 1;
  next_order = 1;
}

-- The COMMIT of the first claim fails.
abbrev shaky : Session
shaky = record { db = opening; turn = 0; faulty = λ n. n == 7 }

abbrev monday : ClaimInput
monday = record {
  day = "2026-04-20";
  at = 100;
  awarded_credits = pos 30;
  ref_id = "checkin:2026-04-20";
  remark = "daily checkin";
}

claim-Ensures_example : Ensures opening (Claims 1 monday shaky tt) (claim 1 monday shaky)
claim-Ensures_example = claim-Ensures 1 monday shaky tt

abbrev visits : List Visit
visits =
    record { user_id = 1; input = monday }
    ∷ record { user_id = 2; input = monday }
    ∷ record { user_id = 1; input = monday }
    ∷ record { user_id = 1; input = monday }
    ∷ []

awards-le-one_example : awards 1 "2026-04-20" visits shaky ≤ 1
awards-le-one_example = awards-le-one 1 "2026-04-20" visits shaky tt
