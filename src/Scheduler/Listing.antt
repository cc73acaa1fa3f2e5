-- ===== src/Scheduler/Listing.antt =====
-- backend/internal/scheduler/service.go: Get and List, the reads of the job table. What JSON,
-- base64 and types.DateTime do with a cursor and a stored instant is a parameter.
pub mod Ordered
pub mod Pages
use pbvex.Base.{
  ℕ, zero, suc, ◌+◌, ◌==◌, leb, ltb, Bool, true, false, not, ◌&&◌, ◌||◌, Option, none, some, List,
  [], ◌∷◌, map, length, take, ℤ, pos, negsuc, Result, ok, err, if◌then◌else◌,
}
use pbvex.Sql.{count_rows, find_row, select_rows, order_by}
use pbvex.Scheduler.Job.{Job, Status, pending, running, canceled, failed, completed, Metadata}
use pbvex.Scheduler.Service.{
  SchedulerError, job_not_found, job_invalid_status, missing_app, database_error,
}

-- JobStatus; `result` and `metadata` are the columns that UnmarshalJSONField decodes.
pub record JobStatus : Type 0 where
  pub id : ℕ
  pub deployment_id : ℕ
  pub status : Status
  pub scheduled_at : ℕ
  pub started : ℕ
  pub finished : ℕ
  pub attempts : ℕ
  pub lease : ℕ
  pub lease_expires_at : ℕ
  pub result : List ℕ
  pub error : List ℕ
  pub metadata : Metadata

-- `time` is DateTime.Time().
unfoldable pub job_status_from_record : (ℕ → ℕ) → Job → JobStatus
job_status_from_record time j = record {
  id = j.id;
  deployment_id = j.deployment_id;
  status = j.status;
  scheduled_at = time j.scheduled_at;
  started = time j.started;
  finished = time j.finished;
  attempts = j.attempts;
  lease = j.lease;
  lease_expires_at = time j.lease_expires_at;
  result = j.result;
  error = j.error;
  metadata = j.metadata;
}

-- Get; `app` says whether the context carries an app.
unfoldable pub get_job : (ℕ → ℕ) → Bool → ℕ → List Job → Result SchedulerError JobStatus
unfolding find_row job_status_from_record
get_job time false id table = err missing_app
get_job time true id table = elim (find_row (λ j. j.id == id) table) [
  | none ↦ err job_not_found
  | some j ↦ ok (job_status_from_record time j)
]

-- The status argument: "", one that isValidStatus accepts, or another text.
pub data StatusFilter : Type 0 where
  all_statuses : StatusFilter
  only : Status → StatusFilter
  unknown_status : StatusFilter

abbrev pub same_status : Status → Status → Bool
same_status pending pending = true
same_status running running = true
same_status canceled canceled = true
same_status failed failed = true
same_status completed completed = true
same_status _ _ = false

-- status = {:status}, or no condition.
unfoldable pub passes_filter : StatusFilter → Job → Bool
passes_filter (only s) j = same_status j.status s
passes_filter _ j = true

pub record ListCursor : Type 0 where
  pub scheduled_at : ℕ
  pub id : ℕ

-- What List takes from outside: dateTime, DateTime.Time(), the cursor's text as base64 and JSON
-- write and read it, and whether the count and the query succeed.
pub record ListEnv : Type 0 where
  pub date_time : ℕ → ℕ
  pub time : ℕ → ℕ
  pub encode : ListCursor → ℕ
  pub decode : ℕ → Option ListCursor
  pub app : Bool
  pub counted : Bool
  pub queried : Bool

-- (scheduledAt < {:sa} OR (scheduledAt = {:sa} AND id < {:id})), or no condition.
unfoldable pub after_cursor : ListEnv → Option ListCursor → Job → Bool
after_cursor env none j = true
after_cursor env (some c) j =
    ltb j.scheduled_at (env.date_time c.scheduled_at)
    || (j.scheduled_at == env.date_time c.scheduled_at && ltb j.id c.id)

-- ORDER BY scheduledAt DESC, id DESC.
unfoldable pub later_first : Job → Job → Bool
later_first a b =
    ltb b.scheduled_at a.scheduled_at || (a.scheduled_at == b.scheduled_at && leb b.id a.id)

-- limit <= 0 is 50, limit > 200 is 200.
unfoldable pub page_limit : ℤ → ℕ
page_limit (pos zero) = 50
page_limit (pos (suc n)) = if ltb 200 (suc n) then 200 else suc n
page_limit (negsuc n) = 50

pub record ListResult : Type 0 where
  pub total : ℕ
  pub items : List JobStatus
  pub limit : ℕ
  pub next_cursor : Option ℕ
  pub has_more : Bool

unfoldable pub last_item : List JobStatus → Option JobStatus
last_item [] = none
last_item (j ∷ []) = some j
last_item (j ∷ k ∷ js) = last_item (k ∷ js)

-- The text of the cursor after the last item.
unfoldable pub next_cursor_of : ListEnv → List JobStatus → Option ℕ
unfolding last_item
next_cursor_of env items = elim (last_item items) [
  | none ↦ none
  | some j ↦ some (env.encode (record { scheduled_at = j.scheduled_at; id = j.id }))
]

-- The result that List makes from the records of the query, at most limit + 1.
unfoldable pub list_result : ListEnv → ℕ → ℕ → List Job → ListResult
unfolding job_status_from_record next_cursor_of
list_result env total limit records =
    let has_more = ltb limit (length records) in
    let items =
      map (job_status_from_record env.time) (if has_more then take limit records else records) in
    record {
      total = total;
      items = items;
      limit = limit;
      next_cursor = if has_more then next_cursor_of env items else none;
      has_more = has_more;
    }

-- The rows in the order and with the conditions of the query.
unfoldable pub matching : ListEnv → StatusFilter → Option ListCursor → List Job → List Job
unfolding select_rows order_by passes_filter after_cursor later_first
matching env filter c table =
    order_by later_first (select_rows (λ j. passes_filter filter j && after_cursor env c j) table)

-- List from the count on.
unfoldable pub list_page :
    ListEnv → StatusFilter → ℕ → Option ListCursor → List Job → Result SchedulerError ListResult
unfolding count_rows passes_filter matching list_result
list_page env filter limit c table =
    if not env.counted || not env.queried
    then err database_error
    else ok (
        list_result env (count_rows (passes_filter filter) table) limit
          (take (suc limit) (matching env filter c table)))

-- List; a cursor of 0 is the empty text.
unfoldable pub list_jobs :
    ListEnv → StatusFilter → ℤ → ℕ → List Job → Result SchedulerError ListResult
unfolding list_page page_limit
list_jobs env filter limit cursor table = if not env.app then err missing_app else elim filter [
  | unknown_status ↦ err job_invalid_status
  | valid ↦
      if cursor == 0
      then list_page env valid (page_limit limit) none table
      else elim (env.decode cursor) [
        | none ↦ err job_invalid_status
        | some c ↦ list_page env valid (page_limit limit) (some c) table
      ]
]
