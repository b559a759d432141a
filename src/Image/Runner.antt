-- ===== src/Image/Runner.antt =====
-- internal/image/runner.go: `Run` with its retries, batches and archive. One attempt against the
-- upstream, `runOnce`, is the function `run_once`, as the code's own field `runOnceFn`; `ctx_done` says
-- that the context is over, and `Ports` are the interfaces of the runner. `W` is the state behind them.
-- The parallel runs of a batch are made one after the other, in the order in which they end; they
-- share nothing but what is behind `run_once`.
use gpt2api.Prelude.{
  ℕ, zero, suc, ◌+◌, ◌-◌, String, Bool, true, false, ◌||◌, List, [], ◌∷◌, ◌++◌, ◌==◌, ltb, leb, not,
  str_eq, length, take, if◌then◌else◌,
}
use gpt2api.Prelude.Sort.{sort_by}
use gpt2api.Image.{StorageMode}

pub record Source : Type 0 where
  pub index : ℕ
  pub file_name : String
  pub image_data : String
  pub content_type : String

-- `RunOptions`, without the timeouts
pub record Options : Type 0 where
  pub task_id : String
  pub upstream_model : String
  pub prompt : String
  pub size : String
  pub n : ℕ
  pub max_attempts : ℕ
  pub references : ℕ

-- `RunResult`; the status is whether it is `success`.
pub record RunResult : Type 0 where
  pub is_success : Bool
  pub conversation_id : String
  pub account_id : ℕ
  pub file_ids : List String
  pub signed_urls : List String
  pub thumb_urls : List String
  pub content_types : List String
  pub storage_mode : StorageMode
  pub error_code : String
  pub error_message : String
  pub attempts : ℕ
  pub archive_images : List Source
  pub quota_used : List (ℕ × ℕ)

abbrev pub started : StorageMode → RunResult
started mode = record {
  is_success = false;
  conversation_id = "";
  account_id = 0;
  file_ids = [];
  signed_urls = [];
  thumb_urls = [];
  content_types = [];
  storage_mode = mode;
  error_code = "unknown";
  error_message = "";
  attempts = 0;
  archive_images = [];
  quota_used = [];
}

-- What `runOnce` returns, with the result that it filled in.
pub record Attempt : Type 0 where
  pub passed : Bool
  pub status : String
  pub message : String
  pub result : RunResult

-- `maxAttemptWindow`
unfoldable pub max_attempt_window : ℕ → ℕ
max_attempt_window max_attempts = if ltb max_attempts 2 then 2 else max_attempts

-- `isRetryableImageFailure`
unfoldable pub is_retryable_image_failure : String → Bool
is_retryable_image_failure code =
    str_eq code "rate_limited"
    || (str_eq code "no_available_account"
        || (str_eq code "auth_required"
            || (str_eq code "network_transient" || str_eq code "upstream_error")))

abbrev pub at_least_one : ℕ → ℕ
at_least_one n = if n == 0 then 1 else n

-- `retryLimit`
unfoldable pub retry_limit : ℕ → String → ℕ
retry_limit max_attempts code =
    if str_eq code "upstream_error"
    then 2
    else if str_eq code "auth_required"
        || (str_eq code "rate_limited" || str_eq code "network_transient")
    then (if ltb (at_least_one max_attempts) 2 then 2 else at_least_one max_attempts)
    else at_least_one max_attempts

-- `copyRunResultState`
abbrev pub copy_run_result_state : RunResult → RunResult → RunResult
copy_run_result_state dst src = record dst {
  conversation_id = src.conversation_id;
  account_id = src.account_id;
  file_ids = src.file_ids;
  signed_urls = src.signed_urls;
  thumb_urls = src.thumb_urls;
  content_types = src.content_types;
  archive_images = src.archive_images;
  quota_used = [];
}

-- `trimRunResultImages`
unfoldable pub trim_run_result_images : RunResult → ℕ → RunResult
trim_run_result_images r max = if max == 0 then r else record r {
  file_ids = take max r.file_ids;
  signed_urls = take max r.signed_urls;
  content_types = take max r.content_types;
  archive_images = take max r.archive_images;
}

abbrev pub max : ℕ → ℕ → ℕ
max a b = if ltb a b then b else a

-- `runResultImageCount`
unfoldable pub run_result_image_count : RunResult → ℕ
run_result_image_count r =
    max (max (max (length r.file_ids) (length r.signed_urls)) (length r.thumb_urls))
      (length r.archive_images)

-- `quotaImageCount`, for a fallback that is positive
abbrev pub quota_image_count : List String → List String → ℕ → ℕ
quota_image_count file_ids signed_urls fallback =
    if ltb 0 (length file_ids)
    then length file_ids
    else if ltb 0 (length signed_urls)
    then length signed_urls
    else at_least_one fallback

-- `normalizeOptions`, but for the timeouts
abbrev pub normalize_options : Options → Options
normalize_options o = record o {
  max_attempts = at_least_one o.max_attempts;
  upstream_model = if str_eq o.upstream_model "" then "auto" else o.upstream_model;
  n = at_least_one o.n;
}

-- The code of a failed attempt.
abbrev pub failure_code : Attempt → String
failure_code a =
    if str_eq a.status ""
    then (if str_eq a.result.error_code "" then "unknown" else a.result.error_code)
    else a.status

-- What is collected while the batches run.
pub record Collected : Type 0 where
  pub so_far : RunResult
  pub success_count : ℕ
  pub last_code : String
  pub last_message : String

-- `subImageCount`
abbrev pub sub_image_count : RunResult → ℕ
sub_image_count r = max (max (length r.file_ids) (length r.signed_urls)) (length r.archive_images)

-- `quotaUsed[id] += n`
unfoldable pub add_quota : ℕ → ℕ → List (ℕ × ℕ) → List (ℕ × ℕ)
add_quota id n [] = (id, n) ∷ []
add_quota id n ((j, m) ∷ t) =
    let rest = add_quota id n t in if id == j then (j, m + n) ∷ t else (j, m) ∷ rest

unfoldable pub shifted : ℕ → List Source → List Source
shifted base [] = []
shifted base (x ∷ xs) = record x { index = base + x.index } ∷ shifted base xs

-- The images of one run are added to those before.
abbrev pub joined : RunResult → RunResult → RunResult
joined r sub = record r {
  file_ids = r.file_ids ++ sub.file_ids;
  signed_urls = r.signed_urls ++ sub.signed_urls;
  content_types = r.content_types ++ sub.content_types;
  archive_images = r.archive_images ++ shifted (run_result_image_count r) sub.archive_images;
  conversation_id = if str_eq r.conversation_id "" then sub.conversation_id else r.conversation_id;
  account_id = if r.account_id == 0 then sub.account_id else r.account_id;
  quota_used =
      if ltb 0 sub.account_id
      then add_quota sub.account_id (sub_image_count sub) r.quota_used
      else r.quota_used;
}

-- The body of the loop over the results of a batch.
abbrev pub collect : Collected → Bool × RunResult → Collected
collect c (passed, sub) =
    let r = record (c.so_far) { attempts = c.so_far.attempts + sub.attempts } in
    if not passed
    then record c { so_far = r; last_code = sub.error_code; last_message = sub.error_message }
    else if sub_image_count sub == 0
    then record c {
      so_far = r;
      last_code = "invalid_response";
      last_message = "empty image response";
    }
    else record c { so_far = joined r sub; success_count = c.success_count + 1 }

unfoldable pub collect_all : Collected → List (Bool × RunResult) → Collected
collect_all c [] = c
collect_all c (x ∷ xs) = collect_all (collect c x) xs

abbrev pub by_index : Source → Source → Bool
by_index a b = leb a.index b.index

-- The images of `runParallel` beyond the number wanted are dropped.
unfoldable pub at_most : ℕ → RunResult → RunResult
at_most n r = if ltb n (run_result_image_count r) then trim_run_result_images r n else r

-- The code and the message of a batch that is short.
abbrev short_code : Collected → String
short_code c =
    if ltb 0 c.success_count
    then "invalid_response"
    else if str_eq c.last_code ""
    then "unknown"
    else c.last_code

-- The verdict of `runParallel` on what is left.
unfoldable pub verdict : ℕ → Collected → RunResult → RunResult
verdict n c r =
    let enough = leb n (run_result_image_count r) in
    record r {
      is_success = if enough then true else r.is_success;
      error_code = if enough then "" else short_code c;
      error_message =
          if enough then "" else if ltb 0 c.success_count then "fewer images" else c.last_message;
    }

-- The end of `runParallel`
unfoldable pub conclude : ℕ → Collected → RunResult
conclude n c =
    verdict n c
      (at_most n (record (c.so_far) { archive_images = sort_by by_index c.so_far.archive_images }))

module _ {W : Type 0} (run_once : Options → W → Attempt × W) (ctx_done : W → Bool) where
  -- The rest of one round of `runWithRetry`; `again` is the next round.
  unfoldable pub after_attempt :
      ℕ
      → Options
      → RunResult
      → (RunResult → W → (Bool × RunResult) × W)
      → Attempt × W
      → (Bool × RunResult) × W
  after_attempt n o r again (a, w) =
      let copied = copy_run_result_state r a.result in
      let marked = record copied { error_message = a.message; error_code = failure_code a } in
      if a.passed
      then ((true, copied), w)
      else if not (is_retryable_image_failure (failure_code a))
          || leb (retry_limit o.max_attempts (failure_code a)) n
      then ((false, marked), w)
      else again marked w

  -- The loop of `runWithRetry`, at the n-th attempt
  unfoldable pub retry_loop : ℕ → ℕ → Options → RunResult → W → (Bool × RunResult) × W
  retry_loop zero n o r w = ((false, r), w)
  retry_loop (suc fuel) n o r w =
      let rest =
        after_attempt n o (record r { attempts = n }) (λ q v. retry_loop fuel (suc n) o q v)
          (run_once o w) in
      if ctx_done w
      then (
        (false, record r { attempts = n; error_code = "unknown"; error_message = "context" }),
        w,
      )
      else rest

  -- `runWithRetry`
  unfoldable pub run_with_retry : Options → RunResult → W → (Bool × RunResult) × W
  run_with_retry o r w = retry_loop (max_attempt_window o.max_attempts) 1 o r w

  -- One run of a batch.
  unfoldable pub run_sub : Options → StorageMode → W → (Bool × RunResult) × W
  run_sub o mode w =
      let (r, v) = run_with_retry (record o { n = 1; task_id = "" }) (started mode) w in
      ((r.0, if r.0 then trim_run_result_images r.1 1 else r.1), v)

  -- `runBatch`
  unfoldable pub run_batch : ℕ → Options → StorageMode → W → List (Bool × RunResult) × W
  run_batch zero o mode w = ([], w)
  run_batch (suc count) o mode w =
      let (x, v) = run_sub o mode w in let (xs, u) = run_batch count o mode v in (x ∷ xs, u)

  -- The loop over the batches
  unfoldable pub batch_loop : ℕ → Options → StorageMode → Collected → W → Collected × W
  batch_loop zero o mode c w = (c, w)
  batch_loop (suc fuel) o mode c w =
      let (xs, v) = run_batch (o.n - run_result_image_count c.so_far) o mode w in
      let rest = batch_loop fuel o mode (collect_all c xs) v in
      if leb o.n (run_result_image_count c.so_far)
      then (c, w)
      else if ctx_done v
      then (collect_all c xs, v)
      else rest

  -- `runParallel`
  unfoldable pub run_parallel : Options → RunResult → W → RunResult × W
  run_parallel o r w =
      let (c, v) =
        batch_loop (max o.n (max_attempt_window o.max_attempts)) o r.storage_mode
          (record {
            so_far = record r { quota_used = [] };
            success_count = 0;
            last_code = "";
            last_message = "";
          })
          w in
      (conclude o.n c, v)
