-- ===== src/Scheduler/Cancel.antt =====
-- backend/internal/scheduler/service.go: Service.Cancel and Service.Retry. `meddle` is what other
-- workers and requests do to the table between the read of the record and the write.
pub mod Edges
pub mod Outcome
use pbvex.Base.{
  ℕ, zero, suc, ◌==◌, Bool, true, false, not, ◌&&◌, Option, none, some, List, [], ◌∷◌, Result, ok,
  err, if◌then◌else◌,
}
use pbvex.Sql.{Fault, no_fault, execute_fault, rows_fault, exec_update, find_row}
use pbvex.Deploy.Manifest.{DeploymentManifest, FunctionDescriptor}
use pbvex.Deploy.Repo.{Deployment, Store, RepoError, deployment_not_found, resolve}
use pbvex.Scheduler.Env.{Env}
use pbvex.Scheduler.Job.{
  Job, Payload, pending, canceled, is_open, is_running, is_terminal, null_json, null_metadata,
}
use pbvex.Scheduler.Service.{
  SchedulerError, job_not_found, job_not_cancelable, job_not_retryable, snapshot_not_found,
  database_error, repo, ScheduleNamespaces, owned_by, parse_payload, find_function,
}

-- The WHERE and the SET of Cancel.
unfoldable pub cancelable : ℕ → ℕ → Job → Bool
cancelable id lease j = j.id == id && j.lease == lease && is_open j.status

unfoldable pub mark_canceled : Env → Job → Job
mark_canceled env j =
    let now = env.date_time env.now in
    record j { status = canceled; lease = 0; lease_expires_at = 0; finished = now; updated = now }

-- The UPDATE of Cancel for the record that was read.
unfoldable pub cancel_write : Env → Job → List Job → List Job × Option ℕ
cancel_write env r table = exec_update env.fault (cancelable r.id r.lease) (mark_canceled env) table

-- The lease token for worker.Cancel, where the canceled job was running.
abbrev signal : Job → Option ℕ
signal r = if is_running r.status then some r.lease else none

-- At most `rounds` attempts. A success carries the lease whose canceller is called, at once or
-- when the caller's transaction commits.
unfoldable pub cancel_loop :
    ℕ
    → (ℕ → Env)
    → (ℕ → List Job → List Job)
    → Option ScheduleNamespaces
    → ℕ
    → List Job
    → List Job × Result SchedulerError (Option ℕ)
cancel_loop zero envs meddle requester id table = (table, err job_not_cancelable)
cancel_loop (suc rounds) envs meddle requester id table = elim (find_row (λ j. j.id == id) table) [
  | none ↦ (table, err job_not_found)
  | some r ↦
      if not (owned_by requester r.payload)
      then (table, err job_not_cancelable)
      else if not (is_open r.status)
      then (table, err job_not_cancelable)
      else (let (table', affected) = cancel_write (envs rounds) r (meddle rounds table) in
          let again = cancel_loop rounds envs meddle requester id table' in
          elim affected [
            | none ↦ (table', err database_error)
            | some n ↦ if n == 0 then again else (table', ok (signal r))
          ])
]

-- maxRetries = 3, so four attempts.
unfoldable pub cancel :
    (ℕ → Env)
    → (ℕ → List Job → List Job)
    → Option ScheduleNamespaces
    → ℕ
    → List Job
    → List Job × Result SchedulerError (Option ℕ)
cancel = cancel_loop 4

-- The SET of Retry.
unfoldable pub requeue : Env → Job → Job
requeue env j =
    let now = env.date_time env.now in
    record j {
      status = pending;
      scheduled_at = now;
      attempts = 0;
      started = 0;
      finished = 0;
      error = [];
      result = null_json;
      metadata = null_metadata;
      lease = 0;
      lease_expires_at = 0;
      updated = now;
    }

-- The WHERE of Retry.
unfoldable pub requeueable : ℕ → Job → Bool
requeueable id j = j.id == id && is_terminal j.status

-- An error of RowsAffected is answered like a count of zero.
requeue_reply : Fault → Option ℕ → Result SchedulerError (Unit {0})
requeue_reply rows_fault affected = err job_not_retryable
requeue_reply fault none = err database_error
requeue_reply fault (some n) = if n == 0 then err job_not_retryable else ok tt

-- The body of Retry's transaction, after findFunction and after Resolve.
requeue_found :
    Env
    → ℕ
    → Result SchedulerError FunctionDescriptor
    → List Job
    → List Job × Result SchedulerError (Unit {0})
unfolding requeue_reply
requeue_found env id (err e) jobs = (jobs, err job_not_retryable)
requeue_found env id (ok d) jobs =
    let (jobs', affected) = exec_update env.fault (requeueable id) (requeue env) jobs in
    (jobs', requeue_reply env.fault affected)

requeue_resolved :
    Env
    → ℕ
    → Payload
    → Result RepoError (DeploymentManifest × ℕ)
    → List Job
    → List Job × Result SchedulerError (Unit {0})
requeue_resolved env id p (err deployment_not_found) jobs = (jobs, err snapshot_not_found)
requeue_resolved env id p (err e) jobs = (jobs, err (repo e))
requeue_resolved env id p (ok (m, hash)) jobs =
    if not (hash == p.bundle_hash)
    then (jobs, err snapshot_not_found)
    else requeue_found env id (find_function m.functions p.function_name) jobs

-- RunInTransaction: the write is kept only on success and where the commit succeeds.
abbrev in_transaction :
    Bool
    → Store
    → List Job × Result SchedulerError (Unit {0})
    → Store × Result SchedulerError (Unit {0})
in_transaction commits s (jobs, err e) = (s, err e)
in_transaction true s (jobs, ok u) = (record s { jobs = jobs }, ok u)
in_transaction false s (jobs, ok u) = (s, err database_error)

-- The transaction of Retry for the payload that was read before it.
unfoldable pub requeue_tx :
    Env → Bool → Bool → ℕ → Payload → Store → Store × Result SchedulerError (Unit {0})
unfolding requeue_resolved requeue_found
requeue_tx env queried commits id p s =
    in_transaction commits s
      (requeue_resolved env id p (resolve queried p.deployment_id s.deployments) s.jobs)

-- Service.Retry.
unfoldable pub retry_job :
    Env → (Store → Store) → Bool → Bool → ℕ → Store → Store × Result SchedulerError (Unit {0})
retry_job env meddle queried commits id s = elim (find_row (λ j. j.id == id) s.jobs) [
  | none ↦ (s, err job_not_found)
  | some r ↦
      if not (is_terminal r.status)
      then (s, err job_not_retryable)
      else elim (parse_payload r.payload) [
        | err e ↦ (s, err job_not_retryable)
        | ok p ↦ requeue_tx env queried commits id p (meddle s)
      ]
]
