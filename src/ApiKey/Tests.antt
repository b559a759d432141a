-- ===== src/ApiKey/Tests.antt =====
-- internal/apikey on concrete data, and its theorems at concrete inputs.
use gpt2api.Prelude.{◌≤◌, ◌≡◌, refl, String, some, List, [], ◌∷◌, arith, ◌==◌, concat}
use gpt2api.Prelude.Int.{pos}
use gpt2api.Db.Table.{find_where}
use gpt2api.Db.Action.{ok}
use gpt2api.Db.Call.{Server, Gives, advance}
use gpt2api.ApiKey.{
  ApiKey, Keys, CreateInput, KeySettings, new_key, create_key, verify_key, count_visible,
}
use gpt2api.ApiKey.Cap.{Created, create_key-Created, new_key-asked_key, with_row}
use gpt2api.ApiKey.History.{Change, creating, ensuring, deleting, touching, run, run-InCap}
use gpt2api.ApiKey.Access.{Admitted, verify_key-Admitted, fresh_key_passes}

abbrev hash : String → String
hash x = concat "h:" x

abbrev joined : List String → String
joined l = "list"

abbrev two_each : KeySettings
two_each = record { max_per_user = pos 2; default_quota = pos 900 }

abbrev wish : CreateInput
wish = record {
  name = "mine";
  quota_limit = pos 0;
  allowed_models = "gpt-5" ∷ [];
  allowed_ips = [];
  rpm = pos 3;
  tpm = pos 0;
  expires_at = 500;
}

abbrev empty : Keys
empty = record { rows = []; next = 1 }

abbrev server : Server Keys
server = record { state = empty; turn = 0; faulty = λ n. n == 5 }

create_key-Created_example :
    Gives empty
      (Created hash joined (some two_each) 7 wish empty)
      (create_key hash joined (some two_each) (some "ab-c_d") 7 wish server)
create_key-Created_example =
    create_key-Created hash joined (some two_each) (some "ab-c_d") 7 wish server

-- Two creations, a third that is refused, a deletion, and a creation whose INSERT fails.
abbrev changes : List Change
changes =
    creating (some "a") 7 wish
    ∷ creating (some "b") 7 wish
    ∷ creating (some "c") 7 wish
    ∷ ensuring (some "d") 7
    ∷ deleting 7 1
    ∷ touching 9 2 "::1" (pos 4)
    ∷ creating (some "e") 7 wish
    ∷ []

run-InCap_example : count_visible 7 (run hash joined two_each changes server).state.rows ≤ 2
unfolding count_visible
run-InCap_example =
    run-InCap hash joined two_each 7 2 refl (omega arith) changes server (omega arith)

verify_key-Admitted_example :
    Gives empty (Admitted hash 40 "sk-x" empty) (verify_key hash joined 40 "sk-x" server)
verify_key-Admitted_example = verify_key-Admitted hash joined 40 "sk-x" server

abbrev made : ApiKey
made = new_key hash joined (some two_each) 7 wish "sk-x"

abbrev full : Server Keys
full = record { state = with_row empty made; turn = 0; faulty = λ n. n == 5 }

made-Created : Created hash joined (some two_each) 7 wish empty ("sk-x", 1, made) full.state
unfolding find_where count_visible
made-Created = record {
  row = new_key-asked_key hash joined (some two_each) 7 wish "sk-x";
  form = refl;
  inserted = record { fresh = refl; own_id = refl; stored = refl };
  room = λ _. refl;
}

fresh_key_passes_example : verify_key hash joined 40 "sk-x" full ≡ (ok (1, made), advance full)
fresh_key_passes_example =
    fresh_key_passes hash joined (some two_each) 7 wish 40 empty ("sk-x", 1, made) full made-Created
      refl refl
