-- ===== src/Image/Tests.antt =====
-- Runs of internal/image/runner.go at concrete inputs.
use gpt2api.Prelude.{ℕ, ◌+◌, ◌≡◌, refl, arith, Bool, true, false, [], ◌∷◌, ◌==◌, none}
use gpt2api.Prelude.Int.{pos}
use gpt2api.Db.Action.{ok, err, said}
use gpt2api.Image.{Task, local, running}
use gpt2api.Image.Runner.{
  Source, Options, RunResult, Attempt, started, run_with_retry, run_parallel, retry_loop,
  max_attempt_window, after_attempt, is_retryable_image_failure, retry_limit,
}
use gpt2api.Image.Archive.{Ports, archive_external_images}
use gpt2api.Image.Run.{World, persist, run}
use gpt2api.Image.Retrying.{Ends, run_with_retry-Ends}
use gpt2api.Image.Batches.{Delivers, run_parallel-Delivers}
use gpt2api.Image.Kept.{Returns, Keeps, archive_external_images-Keeps}
use gpt2api.Image.Outcome.{EachNamed, Shows, persist-Shows}
use gpt2api.Image.Bounded.{BringsNoThumbs, Succeeds, run-Succeeds}

abbrev asked : ℕ → Options
asked n = record {
  task_id = "img_1";
  upstream_model = "auto";
  prompt = "a cat";
  size = "1024x1024";
  n = n;
  max_attempts = 2;
  references = 0;
}

abbrev drawn : RunResult
drawn = record (started local) { account_id = 7; file_ids = "f1" ∷ []; signed_urls = "u1" ∷ [] }

-- An attempt that fails upstream, and one that passes.
abbrev attempt : Bool → Attempt
attempt true = record {
  passed = false;
  status = "upstream_error";
  message = "bad gateway";
  result = started local;
}
attempt false = record { passed = true; status = ""; message = ""; result = drawn }

-- The first attempt fails and those after it pass; the state counts them.
abbrev second_passes : {W : Type 0} → (W → Bool) → (W → W) → Options → W → Attempt × W
second_passes is_first next o w = (attempt (is_first w), next w)

abbrev counting : Options → ℕ → Attempt × ℕ
counting = second_passes (λ w. w == 0) (λ w. w + 1)

abbrev never : {W : Type 0} → W → Bool
never w = false

retried : (run_with_retry counting never (asked 1) (started local) 0).0.1.attempts ≡ 2
unfolding run_with_retry retry_loop max_attempt_window after_attempt is_retryable_image_failure
    retry_limit
retried = refl

run_with_retry-Ends_example :
    Ends counting never 2 (run_with_retry counting never (asked 1) (started local) 0)
run_with_retry-Ends_example = run_with_retry-Ends counting never (asked 1) (started local) 0

run_parallel-Delivers_example :
    Delivers 3 (run_parallel counting never (asked 3) (started local) 0).0
run_parallel-Delivers_example =
    run_parallel-Delivers counting never (asked 3) (started local) 0 (omega arith) refl refl

abbrev cloud_ports : {W : Type 0} → Ports W
cloud_ports = record {
  image_storage_mode = "cloud";
  has_files = false;
  cloud_uploader = ok tt;
  image_upload_channels = "telegram" ∷ "huggingface" ∷ [];
  upload = λ src channel w. (ok src.file_name, w);
  build_thumbnail = λ image_data. err (said "no thumbnail");
  download = λ url w. (ok ("bytes", "image/png"), w);
  save_task_references = λ id images w. (ok tt, w);
  save_task_images = λ id images w. (ok tt, w);
  file_named = λ prefix id i. id;
  reference_named = λ prefix id i. id;
  inline_url = λ i. "inline";
}

abbrev origin : ℕ
origin = 0

abbrev inline_image : Source
inline_image = record {
  index = 0;
  file_name = "";
  image_data = "bytes";
  content_type = "image/png";
}

archive_external_images-Keeps_example :
    Returns
      (Keeps 3)
      (archive_external_images cloud_ports "img_1" ("a" ∷ "b" ∷ []) (inline_image ∷ []) origin)
archive_external_images-Keeps_example =
    archive_external_images-Keeps cloud_ports "img_1" ("a" ∷ "b" ∷ []) (inline_image ∷ []) origin

abbrev row : Task
row = record {
  task_id = "img_1";
  user_id = 1;
  key_id = 2;
  account_id = 0;
  prompt = "a cat";
  n = 1;
  size = "1024x1024";
  storage_mode = local;
  status = running;
  conversation_id = "";
  file_ids = [];
  result_urls = [];
  thumb_urls = [];
  reference_count = 0;
  reference_urls = [];
  reference_thumb_urls = [];
  error = "";
  estimated_credit = pos 100;
  credit_cost = pos 0;
  started_at = none;
  finished_at = none;
  deleted = false;
}

abbrev world : World ℕ
world = record {
  state = record { outside = 0; tasks = row ∷ []; accounts = [] };
  turn = 0;
  faulty = λ n. false;
}

persist-Shows_example :
    EachNamed "img_1"
      (Shows (record drawn { is_success = true }))
      (persist 5 (asked 1) (record drawn { is_success = true }) world).state.tasks
persist-Shows_example =
    persist-Shows 5 (asked 1) (record drawn { is_success = true }) world refl refl

-- The same attempts, in a world.
abbrev counting_world : Options → World ℕ → Attempt × World ℕ
counting_world =
    second_passes (λ w. w.state.outside == 0)
      (λ w. record w { state = record (w.state) { outside = w.state.outside + 1 } })

attempt_bare : (b : Bool) → (attempt b).result.thumb_urls ≡ []
attempt_bare true = refl
attempt_bare false = refl

counting_world_bare : BringsNoThumbs counting_world
counting_world_bare o w = attempt_bare (w.state.outside == 0)

run-Succeeds_example : Succeeds 3 (run counting_world never cloud_ports 5 (asked 3) world)
run-Succeeds_example =
    run-Succeeds counting_world never cloud_ports counting_world_bare 5 (asked 3) world
