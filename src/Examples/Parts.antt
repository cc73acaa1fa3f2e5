-- ===== src/Examples/Parts.antt =====
-- A run of a job, a call of scheduleJob, a trim, and a page of the jobs.
use pbvex.Base.{
  Bool-cases, inl, inr, if◌then◌else◌, ◌≡◌, ◌⊎◌, ◌==◌, Result, ok, err, ℕ, ◌&&◌, ◌||◌, ◌↔◌, Bool,
  ltb, arith, some, none, List, [], ◌∷◌, refl, true, false, pos, length, ◌≤◌, suc, All,
}
use pbvex.Sql.{
  no_fault, delete_rows, exec_update, count_rows, find_row, select_rows, order_by, insert_ordered,
}
use pbvex.Deploy.Manifest.{DeploymentConfig, normalize_config}
use pbvex.Deploy.Repo.{Store, trim_history, referenced, resolve, pin}
use pbvex.Deploy.Repo.Trim.{trim_history-spares}
use pbvex.Scheduler.Config.{default_config}
use pbvex.Scheduler.Job.{Job, null_json, pending, is_pending}
use pbvex.Scheduler.Worker.{encoded}
use pbvex.Scheduler.Service.{SchedulerError, build_payload, find_function}
use pbvex.Scheduler.Run.{World, returned}
use pbvex.Scheduler.Schedule.{Request, schedule_job, schedule_in_tx, owner_for}
use pbvex.Scheduler.Schedule.Placed.{schedule_job-IsPlaced, IsPlaced}
use pbvex.Scheduler.Listing.{
  ListEnv, only, ListResult, list_jobs, list_page, page_limit, list_result, passes_filter, matching,
  after_cursor, later_first, job_status_from_record, next_cursor_of,
}
use pbvex.Scheduler.Listing.Ordered.{IsAsked, IsBehind, IsListing}
use pbvex.Scheduler.Listing.Pages.{list_jobs-IsPage, IsPage, opened}
use pbvex.Scheduler.Polling.{Poll, claim_due}
use pbvex.Scheduler.Polling.Started.{claim_due-IsStarted, IsStarted, IsDue}
use pbvex.Examples.Data.{waiting, held_job, one_job, at_time, live, old, older, tables-Keyed}

-- Nobody interferes with the run, and its function returns nothing.
abbrev undisturbed : World
undisturbed = record {
  before_check = λ s. s;
  counted = true;
  before_run = λ s. s;
  queried = true;
  invoke = λ d p. returned (encoded null_json);
  during = λ s. s;
  logs = λ e. false;
  stopping = false;
  jitter = λ d. 0;
  later = 30;
  texts = λ x. [];
}

abbrev deployment_config : DeploymentConfig
deployment_config = record {
  http_path_prefix = 1;
  realtime_path = 2;
  max_upload_bytes = 1000;
  max_function_args_bytes = 100;
  max_return_value_bytes = 100;
  default_request_timeout_ms = 30000;
}

abbrev request : Request
request = record {
  queried = true;
  pin_fault = no_fault;
  saved = true;
  commits = true;
  new_id = 22;
  default_config = deployment_config;
}

abbrev scheduling : Store × Result SchedulerError ℕ
scheduling = schedule_job (at_time 20 1) request none 40 1 7 (encoded null_json) one_job

schedule_job-IsPlaced_example :
    ((scheduling.0 ≡ one_job) × ((e : SchedulerError) × (scheduling.1 ≡ err e)))
    ⊎ ((scheduling.1 ≡ ok 22)
        × IsPlaced (at_time 20 1) request none 40 1 7 (encoded null_json) one_job scheduling.0)
schedule_job-IsPlaced_example =
    schedule_job-IsPlaced (at_time 20 1) request none 40 1 7 (encoded null_json) one_job

-- The call succeeds.
scheduling_succeeds : scheduling.1 ≡ ok 22
unfolding schedule_job schedule_in_tx resolve find_row find_function owner_for build_payload
    normalize_config pin exec_update count_rows
scheduling_succeeds = refl

-- The referenced deployment is inactive here, so only its job keeps it from being deleted.
abbrev replaced : Store
replaced = record {
  deployments = record live { active = false } ∷ old ∷ older ∷ [];
  jobs = waiting ∷ [];
}

trim_history-spares_example :
    count_rows
      (λ d. d.deployment_id == 1)
      (trim_history true (λ id. no_fault) 4 5 1 replaced).0.deployments
    ≡ count_rows (λ d. d.deployment_id == 1) replaced.deployments
unfolding referenced
trim_history-spares_example =
    trim_history-spares true (λ id. no_fault) 4 5 1 1 replaced
      (record { by_id = tables-Keyed.by_id; by_deployment = tables-Keyed.by_deployment }) refl

abbrev list_env : ListEnv
list_env = record {
  date_time = λ t. t;
  time = λ t. t;
  encode = λ c. c.id;
  decode = λ n. none;
  app = true;
  counted = true;
  queried = true;
}

abbrev two_jobs : List Job
two_jobs = waiting ∷ record waiting { id = 22; scheduled_at = 15 } ∷ held_job ∷ []

-- The page behind job 22 at time 15 has the one job that was scheduled earlier.
abbrev behind_env : ListEnv
behind_env = record list_env { decode = λ n. some (record { scheduled_at = 15; id = 22 }) }

abbrev second_page : ListResult
second_page = list_result behind_env 2 1 (waiting ∷ [])

is_pending_test : (j : Job) → (is_pending j.status ≡ true) ↔ IsAsked (only pending) j
is_pending_test j = (λ e. ground arith, λ e. ground arith)

abbrev earlier : Job → Bool
earlier j = ltb j.scheduled_at 15 || (j.scheduled_at == 15 && ltb j.id 22)

earlier_test : (j : Job) → (earlier j ≡ true) ↔ IsBehind behind_env (opened behind_env 9) j
earlier_test j = (λ e. ground arith, λ e. ground arith)

list_jobs-IsPage_example :
    (second_page.total ≡ count_rows (λ j. is_pending j.status) two_jobs)
    × ((rows : List Job) × IsListing (λ j. is_pending j.status) earlier two_jobs rows
        × IsPage behind_env (only pending) rows second_page)
unfolding list_jobs list_page page_limit list_result passes_filter matching after_cursor later_first
    job_status_from_record next_cursor_of count_rows select_rows order_by insert_ordered
list_jobs-IsPage_example =
    list_jobs-IsPage behind_env (only pending) (pos 1) 9 two_jobs second_page
      (λ j. is_pending j.status) earlier is_pending_test earlier_test refl

-- A poll at 20 with free slots that draws the token 77, where others take job 3, and job 3 alone,
-- before its claim.
abbrev poll : Poll
poll = record {
  ready = true;
  queried = true;
  now = 20;
  date_time = suc;
  acquires = λ id. true;
  envs = λ id. at_time 20 77;
  meddle = λ id t. if id == 3 then delete_rows (λ j. j.id == id) t else t;
}

deleted_away :
    (k d : ℕ) (u : List Job) → All (λ j. j.id ≡ k → ¬ IsDue d j) (delete_rows (λ j. j.id == k) u)
unfolding delete_rows
deleted_away k d [] = tt
deleted_away k d (j ∷ u) = elim (Bool-cases (j.id == k)) [
  | inl same ↦ rw same (deleted_away k d u)
  | inr other ↦ rw other (λ e z. ground arith, deleted_away k d u)
]

others_take :
    (k : ℕ)
    → (k == 3) ≡ true
    → (u : List Job) → All (λ j. j.id ≡ k → ¬ IsDue (poll.date_time poll.now) j) (poll.meddle k u)
others_take k e u = rw e (deleted_away k (poll.date_time poll.now) u)

claim_due-IsStarted_example :
    All (IsStarted default_config poll one_job.jobs) (claim_due default_config poll one_job.jobs).1
    × (length (claim_due default_config poll one_job.jobs).1 ≤ default_config.claim_batch)
    × All (λ j. (j.id == 3) ≡ false) (claim_due default_config poll one_job.jobs).1
claim_due-IsStarted_example =
    claim_due-IsStarted default_config poll one_job.jobs (λ k. k == 3) others_take
