-- ===== src/Image.antt =====
-- internal/image/model.go and dao.go: the tasks of image generation, and what each statement makes of
-- their table. A list of texts stands for the JSON text of a column.
pub mod Runner
pub mod Retrying
pub mod Batches
pub mod Archive
pub mod Run
pub mod Kept
pub mod Bounded
pub mod Outcome
mod Tests
use gpt2api.Prelude.{
  ℕ, String, Bool, true, false, ◌&&◌, ◌||◌, Option, none, some, List, [], ◌∷◌, ◌==◌, str_eq, leb,
  if◌then◌else◌,
}
use gpt2api.Prelude.Int.{ℤ}
use gpt2api.Prelude.Text.{first_chars, count_chars}

pub data Status : Type 0 where
  queued dispatched running success failed : Status

pub data StorageMode : Type 0 where
  local cloud : StorageMode

-- `NormalizeStorageMode`
pub normalize_storage_mode : String → StorageMode
normalize_storage_mode mode = if str_eq mode "cloud" then cloud else local

pub record Task : Type 0 where
  pub task_id : String
  pub user_id : ℕ
  pub key_id : ℕ
  pub account_id : ℕ
  pub prompt : String
  pub n : ℕ
  pub size : String
  pub storage_mode : StorageMode
  pub status : Status
  pub conversation_id : String
  pub file_ids : List String
  pub result_urls : List String
  pub thumb_urls : List String
  pub reference_count : ℕ
  pub reference_urls : List String
  pub reference_thumb_urls : List String
  pub error : String
  pub estimated_credit : ℤ
  pub credit_cost : ℤ
  pub started_at : Option ℕ
  pub finished_at : Option ℕ
  pub deleted : Bool

abbrev pub Tasks : Type 0
Tasks = List Task

-- `UPDATE image_tasks SET … WHERE task_id = ?` under a test of the row.
unfoldable pub set_where : (Task → Bool) → (Task → Task) → String → Tasks → Tasks
set_where test write id [] = []
set_where test write id (t ∷ ts) =
    let rest = set_where test write id ts in
    (if str_eq t.task_id id && test t then write t else t) ∷ rest

-- `Create`
abbrev pub create_task : Task → Tasks → Tasks
create_task t ts = t ∷ ts

abbrev pub is_waiting : Status → Bool
is_waiting queued = true
is_waiting dispatched = true
is_waiting _ = false

-- `MarkRunning`
abbrev pub mark_running : ℕ → ℕ → String → Tasks → Tasks
mark_running now account_id =
    set_where (λ t. is_waiting t.status)
      (λ t. record t { status = running; account_id = account_id; started_at = some now })

-- `SetAccount`
abbrev pub set_account : ℕ → String → Tasks → Tasks
set_account account_id = set_where (λ t. true) (λ t. record t { account_id = account_id })

-- What `MarkSuccess` writes.
abbrev pub succeeded :
    ℕ → String → List String → List String → List String → StorageMode → ℤ → Task → Task
succeeded now conversation_id file_ids result_urls thumb_urls mode credit_cost t = record t {
  status = success;
  conversation_id = conversation_id;
  file_ids = file_ids;
  result_urls = result_urls;
  thumb_urls = thumb_urls;
  storage_mode = mode;
  credit_cost = credit_cost;
  finished_at = some now;
}

-- `MarkSuccess`
abbrev pub mark_success :
    ℕ → String → List String → List String → List String → StorageMode → ℤ → String → Tasks → Tasks
mark_success now conversation_id file_ids result_urls thumb_urls mode credit_cost =
    set_where (λ t. true)
      (succeeded now conversation_id file_ids result_urls thumb_urls mode credit_cost)

-- `UpdateReferences`
abbrev pub update_references : List String → List String → String → Tasks → Tasks
update_references urls thumb_urls =
    set_where (λ t. true)
      (λ t. record t { reference_urls = urls; reference_thumb_urls = thumb_urls })

-- `UpdateCost`
abbrev pub update_cost : ℤ → String → Tasks → Tasks
update_cost cost = set_where (λ t. true) (λ t. record t { credit_cost = cost })

-- `truncate`
abbrev pub truncate : String → ℕ → String
truncate s max = if leb (count_chars s) max then s else first_chars max s

-- `MarkFailed`
abbrev pub mark_failed : ℕ → String → String → Tasks → Tasks
mark_failed now error_code =
    set_where (λ t. true)
      (λ t. record t { status = failed; error = truncate error_code 500; finished_at = some now })

-- `Get`: the task id is a unique key.
unfoldable pub get_task : String → Tasks → Option Task
get_task id [] = none
get_task id (t ∷ ts) =
    if str_eq t.task_id id && (if t.deleted then false else true) then some t else get_task id ts

-- `SoftDeleteByUser`: whether a row was affected, and the table.
abbrev pub may_delete : ℕ → Task → Bool
may_delete user_id t = (t.user_id == user_id) && (if t.deleted then false else true)

unfoldable pub soft_delete_by_user : String → ℕ → Tasks → Bool × Tasks
soft_delete_by_user id user_id [] = (false, [])
soft_delete_by_user id user_id (t ∷ ts) =
    let (hit, rest) = soft_delete_by_user id user_id ts in
    if str_eq t.task_id id && may_delete user_id t
    then (true, record t { deleted = true } ∷ rest)
    else (hit, t ∷ rest)
