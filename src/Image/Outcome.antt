-- ===== src/Image/Outcome.antt =====
-- What `Run` of internal/image/runner.go leaves in the table of tasks.
use gpt2api.Prelude.{
  ℕ, ◌+◌, ◌≡◌, refl, inl, inr, arith, String, Bool, true, false, ◌&&◌, ◌==◌, ltb, not, str_eq,
  Bool-cases, some, if◌then◌else◌, List, [], ◌∷◌,
}
use gpt2api.Prelude.Int.{pos}
use gpt2api.Db.Action.{ok}
use gpt2api.Db.Call.{statement}
use gpt2api.Image.{
  Task, Tasks, success, failed, set_where, truncate, succeeded, mark_success, mark_failed,
}
use gpt2api.Account.{decr_quota}
use gpt2api.Image.Runner.{Options, RunResult}
use gpt2api.Image.Run.{World, on_tasks, on_accounts, count_quota, persist}

-- Each row of the table that has an id.
abbrev pub EachNamed : String → (Task → Type 0) → Tasks → Type 0
EachNamed id P [] = Unit
EachNamed id P (t ∷ ts) = ((str_eq t.task_id id ≡ true) → P t) × EachNamed id P ts

set_where-EachNamed :
    (write : Task → Task) (P : Task → Type 0)
    → ((t : Task) → (write t).task_id ≡ t.task_id)
    → ((t : Task) → P (write t))
    → (id : String) (ts : Tasks) → EachNamed id P (set_where (λ t. true) write id ts)
unfolding set_where
set_where-EachNamed write P keeps holds id [] = tt
set_where-EachNamed write P keeps holds id (t ∷ ts) =
    (onto (str_eq t.task_id id) refl, set_where-EachNamed write P keeps holds id ts)
  where
    onto :
        (b : Bool)
        → str_eq t.task_id id ≡ b
        → (str_eq (if b && true then write t else t).task_id id ≡ true)
        → P (if b && true then write t else t)
    onto true e h = holds t
    onto false e h = absurd (ground arith)

-- A row that shows a result.
abbrev pub Shows : RunResult → Task → Type 0
Shows r t =
    if r.is_success
    then (t.status ≡ success)
      × (t.file_ids ≡ r.file_ids)
      × (t.result_urls ≡ r.signed_urls)
      × (t.thumb_urls ≡ r.thumb_urls)
      × (t.storage_mode ≡ r.storage_mode)
    else (t.status ≡ failed) × (t.error ≡ truncate r.error_code 500)

mark_success-Shows :
    (now : ℕ) (r : RunResult) (t : Task)
    → r.is_success ≡ true
    → Shows r (
        succeeded now r.conversation_id r.file_ids r.signed_urls r.thumb_urls r.storage_mode
          (pos 0)
          t)
mark_success-Shows now r t e = rw e (refl, refl, refl, refl, refl)

module _ {V : Type 0} where
  count_quota-tasks :
      (q : List (ℕ × ℕ)) (w : World V) → (count_quota q w).state.tasks ≡ w.state.tasks
  unfolding count_quota on_accounts statement
  count_quota-tasks [] w = refl
  count_quota-tasks ((id, n) ∷ t) w =
      let after : World V = (on_accounts (decr_quota (pos n) id) w).1 in
      let next : World V = if not (id == 0) && ltb 0 n then after else w in
      ground (arith, count_quota-tasks t next)

  on_tasks-quiet :
      (f : Tasks → Tasks) (w : World V)
      → w.faulty w.turn ≡ false
      → on_tasks f w ≡ (
        ok tt,
        record w { state = record (w.state) { tasks = f w.state.tasks }; turn = w.turn + 1 },
      )
  unfolding on_tasks statement
  on_tasks-quiet f w quiet = rw quiet refl

  persist-EachNamed :
      (now : ℕ) (o : Options) (r : RunResult) (w : World V) (P : Task → Type 0)
      → str_eq o.task_id "" ≡ false
      → w.faulty w.turn ≡ false
      → (r.is_success ≡ true
          → (t : Task)
          → P (
              succeeded now r.conversation_id r.file_ids r.signed_urls r.thumb_urls r.storage_mode
                (pos 0)
                t))
      → (r.is_success ≡ false
          → (t : Task)
          → P (record t {
            status = failed;
            error = truncate r.error_code 500;
            finished_at = some now;
          }))
      → EachNamed o.task_id P (persist now o r w).state.tasks
  unfolding persist
  persist-EachNamed now o r w P named quiet won lost = elim (Bool-cases r.is_success) [
    | inl e ↦
        let rows =
          set_where-EachNamed
            (succeeded now r.conversation_id r.file_ids r.signed_urls r.thumb_urls r.storage_mode
              (pos 0))
            P (λ t. refl) (won e) o.task_id w.state.tasks in
        let written =
          on_tasks-quiet
            (mark_success now r.conversation_id r.file_ids r.signed_urls r.thumb_urls r.storage_mode
              (pos 0) o.task_id)
            w quiet in
        rw (named, e, written, count_quota-tasks, written) rows
    | inr e ↦
        let rows =
          set_where-EachNamed
            (λ t. record t {
              status = failed;
              error = truncate r.error_code 500;
              finished_at = some now;
            })
            P (λ t. refl) (lost e) o.task_id w.state.tasks in
        rw (named, e, on_tasks-quiet (mark_failed now r.error_code o.task_id) w quiet) rows
  ]

  -- Where the task has an id and the statement that writes the result does not fail, each row of the
  -- task shows the result: the status, and the files, URLs, thumbnails and store of a success or the
  -- code of a failure.
  pub persist-Shows :
      (now : ℕ) (o : Options) (r : RunResult) (w : World V)
      → str_eq o.task_id "" ≡ false
      → w.faulty w.turn ≡ false
      → EachNamed o.task_id (Shows r) (persist now o r w).state.tasks
  persist-Shows now o r w named quiet =
      persist-EachNamed now o r w (Shows r) named quiet (λ e t. mark_success-Shows now r t e)
        (λ e t. rw e (refl, refl))
