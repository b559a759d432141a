-- ===== src/Image/Run.antt =====
-- internal/image/runner.go: `Run`, over the table of tasks and the accounts that it writes. `V` is the
-- state behind the upstream and the stores; `run_once` is one attempt, which may write the tables
-- too. `ctx_done` says that the context is over. The runner has its table, its settings and its
-- quotas, as cmd/server/main.go sets them.
use gpt2api.Prelude.{
  ℕ, String, Bool, true, false, ◌&&◌, List, [], ◌∷◌, ◌==◌, ltb, length, not, str_eq, if◌then◌else◌,
}
use gpt2api.Prelude.Int.{pos}
use gpt2api.Db.Action.{Result, ok, err}
use gpt2api.Db.Call.{Server, Call, statement}
use gpt2api.Db.Table.{Table}
use gpt2api.Account.{Account, decr_quota}
use gpt2api.Image.{Tasks, mark_running, mark_success, mark_failed, normalize_storage_mode}
use gpt2api.Image.Runner.{
  Options, RunResult, Attempt, started, normalize_options, trim_run_result_images,
  run_result_image_count, quota_image_count, run_with_retry, run_parallel,
}
use gpt2api.Image.Archive.{Ports, archive_result_images}

pub record Stored (V : Type 0) : Type 0 where
  pub outside : V
  pub tasks : Tasks
  pub accounts : Table Account

abbrev pub World : Type 0 → Type 0
World V = Server (Stored V)

-- `quotaUsed`, or the account of the result where it is empty.
abbrev pub quota_of : Options → RunResult → List (ℕ × ℕ)
quota_of o r =
    if ltb 0 (length r.quota_used)
    then r.quota_used
    else if ltb 0 r.account_id
    then (r.account_id, quota_image_count r.file_ids r.signed_urls o.n) ∷ []
    else []

module _ {V : Type 0} where
  -- One statement on the tasks.
  unfoldable pub on_tasks : (Tasks → Tasks) → Call (Stored V) (Unit {0})
  on_tasks f = statement (λ s. ok (tt, record s { tasks = f s.tasks }))

  -- One statement on the accounts.
  unfoldable pub on_accounts : (Table Account → Table Account) → Call (Stored V) (Unit {0})
  on_accounts f = statement (λ s. ok (tt, record s { accounts = f s.accounts }))

  -- `DecrQuota` for each account; its errors are dropped.
  unfoldable pub count_quota : List (ℕ × ℕ) → World V → World V
  count_quota [] w = w
  count_quota ((id, n) ∷ t) w =
      let after = (on_accounts (decr_quota (pos n) id) w).1 in
      count_quota t (if not (id == 0) && ltb 0 n then after else w)

  -- The end of `Run`: what it writes of its result.
  unfoldable pub persist : ℕ → Options → RunResult → World V → World V
  persist now o r w =
      let (marked, v) =
        on_tasks
          (mark_success now r.conversation_id r.file_ids r.signed_urls r.thumb_urls r.storage_mode
            (pos 0) o.task_id)
          w in
      if str_eq o.task_id ""
      then w
      else if r.is_success
      then elim marked [ ok _ ↦ count_quota (quota_of o r) v | err _ ↦ v ]
      else (on_tasks (mark_failed now r.error_code o.task_id) w).1

abbrev pub failed_with : RunResult → String → String → RunResult
failed_with r code message = record r {
  is_success = false;
  error_code = code;
  error_message = message;
}

abbrev pub passed_with : Options → RunResult → RunResult
passed_with o r = record r {
  quota_used = (r.account_id, quota_image_count r.file_ids r.signed_urls o.n) ∷ [];
  is_success = true;
  error_code = "";
  error_message = "";
}

-- A result whose images are archived, or a failure.
abbrev pub archived_as :
    {W : Type 0} → (RunResult → RunResult) → RunResult → Result RunResult × W → RunResult × W
archived_as f r (err e, w) = (failed_with r "archive_failed" "", w)
archived_as f r (ok y, w) = (f y, w)

module _ {V : Type 0} (run_once : Options → World V → Attempt × World V) (ctx_done : World V → Bool)
    (p : Ports (World V)) where
  -- More than one image
  unfoldable pub run_many : Options → RunResult → World V → RunResult × World V
  run_many o r w =
      let (x, v) = run_parallel run_once ctx_done o r w in
      let kept = archived_as (λ y. y) x (archive_result_images p o.task_id x v) in
      if x.is_success then kept else (x, v)

  -- One image
  unfoldable pub run_single : Options → RunResult → World V → RunResult × World V
  run_single o r w =
      let (x, v) = run_with_retry run_once ctx_done o r w in
      let trimmed = trim_run_result_images x.1 o.n in
      let kept =
        archived_as (passed_with o) trimmed (archive_result_images p o.task_id trimmed v) in
      if not x.0
      then (x.1, v)
      else if ltb (run_result_image_count trimmed) o.n
      then (failed_with trimmed "invalid_response" "", v)
      else kept

  -- `Run` on options that are normalized.
  unfoldable pub run_on : Options → RunResult → World V → RunResult × World V
  run_on o r w = let many = run_many o r w in if ltb 1 o.n then many else run_single o r w

  -- `Run`; `now` is the time of its writes.
  unfoldable pub run : ℕ → Options → World V → RunResult × World V
  run now given w =
      let o = normalize_options given in
      let begun = (on_tasks (mark_running now 0 o.task_id) w).1 in
      let (r, v) =
        run_on o (started (normalize_storage_mode p.image_storage_mode))
          (if str_eq o.task_id "" then w else begun) in
      (r, persist now o r v)
