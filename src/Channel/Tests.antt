-- ===== src/Channel/Tests.antt =====
-- Channels, their health and their routes at concrete tables.
use gpt2api.Prelude.{ℕ, ◌≡◌, refl, String, true, false, ◌==◌, Option, some, List, [], ◌∷◌}
use gpt2api.Prelude.Int.{ℤ, pos, negsuc}
use gpt2api.Prelude.Sort.{sort_by, insert_by}
use gpt2api.Db.Table.{find}
use gpt2api.Db.Action.{Result, ok, err}
use gpt2api.Db.Call.{Server, statement}
use gpt2api.Channel.{Channel, Mapping, Channels, ChannelInput, unhealthy, decrypt_key, new_channel}
use gpt2api.Channel.Router.{
  Route, resolve, resolve_by_local_model, choose_routes, routes_of, joined, split_routes,
}
use gpt2api.Channel.Routing.{Answers, resolve-Answers}
use gpt2api.Channel.History.{
  Change, creating, editing, deleting, reading, marking, World, InStep, run, run-InStep,
}

abbrev plain : String → String
plain s = s

abbrev sealed : String → Option String
sealed s = some s

abbrev input : ChannelInput
input = record {
  name = "main";
  kind = "openai";
  base_url = "https://a";
  api_key = "sk-1234567890";
  enabled = true;
  priority = negsuc 0;
  weight = pos 0;
  timeout_s = pos 0;
  ratio = pos 0;
  extra = "";
  remark = "";
}

abbrev fresh : Channel
fresh = new_channel plain sealed sealed input "sk-1234567890"

abbrev empty : World
empty = record {
  server = record {
    state = record { channels = []; mappings = []; next_channel = 1; next_mapping = 1 };
    turn = 0;
    faulty = λ n. n == 6;
  };
  in_hand = [];
}

-- Two failed tests from one reading count once; the third statement of the driver fails.
abbrev calls : List Change
calls =
    creating input
    ∷ reading 1
    ∷ marking 10 1 0 false "down"
    ∷ reading 1
    ∷ marking 20 1 0 false "down"
    ∷ marking 21 1 0 false "down"
    ∷ reading 1
    ∷ marking 30 1 0 false "down"
    ∷ editing 1 input
    ∷ deleting 1
    ∷ []

run-InStep_example : InStep plain sealed sealed (run plain sealed sealed calls empty)
run-InStep_example = run-InStep plain sealed sealed calls empty (tt, tt)

abbrev mapping : ℕ → ℤ → Mapping
mapping id priority = record {
  channel_id = id;
  local_model = "gpt";
  upstream_model = "gpt-x";
  modality = "text";
  enabled = true;
  priority = priority;
}

abbrev stocked : Server Channels
stocked = record {
  state = record {
    channels =
        (1, record fresh { status = unhealthy; fail_count = 3; priority = pos 1 })
        ∷ (2, record fresh { priority = pos 5 })
        ∷ (3, record fresh { priority = pos 2 })
        ∷ (4, record fresh { deleted = true })
        ∷ [];
    mappings =
        (1, mapping 1 (pos 1))
        ∷ (2, mapping 2 (pos 1))
        ∷ (3, mapping 3 (pos 1))
        ∷ (4, mapping 4 (pos 1))
        ∷ (5, mapping 3 (pos 0))
        ∷ [];
    next_channel = 5;
    next_mapping = 6;
  };
  turn = 0;
  faulty = λ n. false;
}

abbrev adapter : Channel → String → Option String
adapter c key = some key

abbrev ids : Result (List (Route String)) × Server Channels → List ℕ
ids (ok rs, s) = go rs
  where
    go : List (Route String) → List ℕ
    go [] = []
    go (x ∷ xs) = x.candidate.mapping_id ∷ go xs
ids (err e, s) = []

resolve_order : ids (resolve sealed adapter "gpt" "text" stocked) ≡ 5 ∷ 3 ∷ 2 ∷ 1 ∷ []
unfolding resolve resolve_by_local_model statement choose_routes routes_of sort_by joined find
    insert_by decrypt_key split_routes
resolve_order = refl

resolve-Answers_example :
    Answers sealed adapter "gpt" "text" stocked (resolve sealed adapter "gpt" "text" stocked)
resolve-Answers_example = resolve-Answers sealed adapter "gpt" "text" stocked
