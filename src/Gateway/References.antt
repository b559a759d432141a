-- ===== src/Gateway/References.antt =====
-- internal/gateway/images.go: the task of a request and its reference images.
use gpt2api.Prelude.{
  ℕ, String, false, none, ◌||◌, not, List, [], length, ltb, str_eq, if◌then◌else◌,
}
use gpt2api.Prelude.Int.{ℤ, pos}
use gpt2api.Db.Action.{Result, ok, err}
use gpt2api.Image.{
  Task, StorageMode, local, cloud, dispatched, create_task, mark_failed, update_references,
}
use gpt2api.Image.Runner.{Source}
use gpt2api.Image.Archive.{Ports, and_then, upload_each}
use gpt2api.Image.Run.{World, on_tasks}
use gpt2api.Gateway.{Verdict, lost}

module _ {V : Type 0} (p : Ports (World V)) where
  -- `archiveCloudTaskReferences`
  unfoldable pub archive_cloud_task_references :
      String → List Source → World V → Result (Unit {0}) × World V
  archive_cloud_task_references task_id refs w =
      and_then (p.cloud_uploader, w)
        (λ _ v.
          and_then (upload_each p p.reference_named task_id refs v)
            (λ both u. on_tasks (update_references both.0 both.1 task_id) u))

  abbrev by_mode : StorageMode → String → List Source → World V → Result (Unit {0}) × World V
  by_mode cloud task_id refs w = archive_cloud_task_references task_id refs w
  by_mode local task_id refs w = p.save_task_references task_id refs w

  -- `archiveTaskReferences`
  unfoldable pub archive_task_references :
      String → StorageMode → List Source → World V → Result (Unit {0}) × World V
  archive_task_references task_id mode refs w =
      let archived = by_mode mode task_id refs w in
      if str_eq task_id "" || not (ltb 0 (length refs)) then (ok tt, w) else archived

  abbrev pub after_archive :
      {X : Type 0}
      → ℕ
      → String
      → (World V → X)
      → (World V → Verdict × X)
      → Result (Unit {0}) × World V
      → Verdict × X
  after_archive now id lift next (err e, w) = (
    lost 0 502 "archive_failed" "archive_failed",
    lift ((on_tasks (mark_failed now "archive_failed" id) w).1),
  )
  after_archive now id lift next (ok _, w) = next w

  abbrev pub after_create :
      {X : Type 0}
      → ℕ
      → Task
      → List Source
      → (World V → X)
      → (World V → Verdict × X)
      → Result (Unit {0}) × World V
      → Verdict × X
  after_create now t refs lift next (err e, w) =
      (lost 0 500 "billing_error" "internal_error", lift w)
  after_create now t refs lift next (ok _, w) =
      after_archive now t.task_id lift next
        (archive_task_references t.task_id t.storage_mode refs w)

  -- The task is created and its references are archived; then comes `next`.
  unfoldable pub with_task :
      {X : Type 0}
      → ℕ
      → Task
      → List Source
      → (World V → X)
      → (World V → Verdict × X)
      → World V
      → Verdict × X
  with_task now t refs lift next w = after_create now t refs lift next (on_tasks (create_task t) w)

-- The row that a request begins with.
abbrev pub new_task : String → ℕ → ℕ → String → ℕ → String → StorageMode → ℕ → ℤ → Task
new_task task_id user_id key_id prompt n size mode references cost = record {
  task_id = task_id;
  user_id = user_id;
  key_id = key_id;
  account_id = 0;
  prompt = prompt;
  n = n;
  size = size;
  storage_mode = mode;
  status = dispatched;
  conversation_id = "";
  file_ids = [];
  result_urls = [];
  thumb_urls = [];
  reference_count = references;
  reference_urls = [];
  reference_thumb_urls = [];
  error = "";
  estimated_credit = cost;
  credit_cost = pos 0;
  started_at = none;
  finished_at = none;
  deleted = false;
}
