-- ===== src/Scheduler/Schedule.antt =====
-- backend/internal/scheduler/service.go: RunAfter, RunAt, validateScheduledAt and scheduleJob.
pub mod Effect
pub mod Placed
use pbvex.Base.{
  ℕ, zero, suc, ◌+◌, ◌-◌, ◌*◌, ◌==◌, ltb, Bool, true, false, not, ◌&&◌, Option, none, some, List,
  [], ◌∷◌, ◌++◌, ℤ, pos, negsuc, Result, ok, err, ◌>>=◌, if◌then◌else◌,
}
use pbvex.Sql.{Fault}
use pbvex.Deploy.Manifest.{
  DeploymentManifest, DeploymentConfig, FunctionDescriptor, normalize_config,
}
use pbvex.Deploy.Repo.{Deployment, Store, RepoError, resolve, pin}
use pbvex.Scheduler.Duration.{millisecond, minute, hour}
use pbvex.Scheduler.Env.{Env}
use pbvex.Scheduler.Job.{Job, Payload, pending, null_metadata}
use pbvex.Scheduler.Worker.{Encoded}
use pbvex.Scheduler.Service.{
  SchedulerError, negative_delay, delay_too_long, scheduled_in_past, scheduled_too_late,
  invalid_target_namespace, database_error, repo, root_namespace, ScheduleNamespaces, find_function,
  resolved_namespace, build_payload,
}

-- What one call of scheduleJob takes from outside beside the clock: whether the query of Resolve
-- and Pin, the save and the commit succeed, the fault of Pin's UPDATE, the id that PocketBase
-- gives the record, and DefaultDeploymentConfig.
pub record Request : Type 0 where
  pub queried : Bool
  pub pin_fault : Fault
  pub saved : Bool
  pub commits : Bool
  pub new_id : ℕ
  pub default_config : DeploymentConfig

lift_repo {ℓ} : {A : Type ℓ} → Result RepoError A → Result SchedulerError A
lift_repo (ok a) = ok a
lift_repo (err e) = err (repo e)

-- The record that is inserted; the columns that are not set are empty.
unfoldable pub new_job : Env → ℕ → ℕ → Payload → ℕ → Job
new_job env id deployment p scheduled_at =
    let now = env.date_time env.now in
    record {
      id = id;
      deployment_id = deployment;
      status = pending;
      payload = some p;
      scheduled_at = env.date_time scheduled_at;
      started = 0;
      finished = 0;
      attempts = 0;
      lease = 0;
      lease_expires_at = 0;
      result = [];
      error = [];
      metadata = null_metadata;
      created = now;
      updated = now;
    }

-- The owner namespace of the job, if the requester's target namespace fits.
unfoldable pub owner_for : Option ScheduleNamespaces → ℕ → Result SchedulerError ℕ
owner_for none target = ok root_namespace
owner_for (some n) target =
    if not (n.target == 0) && not (n.target == target)
    then err invalid_target_namespace
    else ok n.owner

insert_job : Bool → Job → List Deployment → Store → Result SchedulerError Store
insert_job false j deployments s = err database_error
insert_job true j deployments s = ok (record { deployments = deployments; jobs = s.jobs ++ j ∷ [] })

-- The body of the transaction.
unfoldable pub schedule_in_tx :
    Env
    → Request
    → Option ScheduleNamespaces
    → ℕ
    → ℕ
    → ℕ
    → Encoded
    → Store
    → Result SchedulerError Store
unfolding insert_job lift_repo
schedule_in_tx env req requester at deployment function args s = do
  found ← lift_repo (resolve req.queried deployment s.deployments)
  d ← find_function found.0.functions function
  let target = resolved_namespace found.0 d
  owner ← owner_for requester target
  payload ←
      build_payload deployment d.name found.1 args owner target
        (normalize_config req.default_config found.0.config).max_function_args_bytes
  pinned ← lift_repo (pin req.queried req.pin_fault deployment (pos 1) s.deployments)
  insert_job req.saved (new_job env req.new_id deployment payload at) pinned s

commit : Bool → ℕ → Store → Result SchedulerError Store → Store × Result SchedulerError ℕ
commit commits id s (err e) = (s, err e)
commit true id s (ok s') = (s', ok id)
commit false id s (ok s') = (s, err database_error)

unfoldable pub schedule_job :
    Env
    → Request
    → Option ScheduleNamespaces
    → ℕ
    → ℕ
    → ℕ
    → Encoded
    → Store
    → Store × Result SchedulerError ℕ
unfolding commit
schedule_job env req requester at deployment function args s =
    commit req.commits req.new_id s (schedule_in_tx env req requester at deployment function args s)

-- maxDelay / time.Millisecond.
abbrev pub max_delay_ms : ℕ
max_delay_ms = 5 * 365 * 24 * 60 * 60 * 1000

unfoldable pub run_after :
    Env
    → Request
    → Option ScheduleNamespaces
    → ℤ
    → ℕ
    → ℕ
    → Encoded
    → Store
    → Store × Result SchedulerError ℕ
run_after env req requester (negsuc n) deployment function args s = (s, err negative_delay)
run_after env req requester (pos ms) deployment function args s =
    if ltb max_delay_ms ms
    then (s, err delay_too_long)
    else schedule_job env req requester (env.now + ms * millisecond) deployment function args s

-- time.Unix(0, 0) in nanoseconds since Go's zero time.
abbrev pub unix_epoch : ℕ
unix_epoch = 62135596800 * 1000000000

-- time.UnixMilli; instants before the start of year 1 are cut off there.
unfoldable pub unix_milli : ℤ → ℕ
unix_milli (pos ms) = unix_epoch + ms * millisecond
unix_milli (negsuc ms) = unix_epoch - (ms + 1) * millisecond

abbrev pub max_scheduled_at : ℕ
max_scheduled_at = 100 * 365 * 24 * hour

-- The clock is read twice, as `now` and then as `later`.
unfoldable pub validate_scheduled_at : ℕ → ℕ → ℕ → Option SchedulerError
validate_scheduled_at now later t =
    if ltb (t + minute) now
    then some scheduled_in_past
    else if ltb (later + max_scheduled_at) t
    then some scheduled_too_late
    else none

unfoldable pub run_at :
    Env
    → ℕ
    → Request
    → Option ScheduleNamespaces
    → ℤ
    → ℕ
    → ℕ
    → Encoded
    → Store
    → Store × Result SchedulerError ℕ
unfolding validate_scheduled_at unix_milli
run_at env later req requester epoch_ms deployment function args s =
    let at = unix_milli epoch_ms in
    elim (validate_scheduled_at env.now later at) [
      | some e ↦ (s, err e)
      | none ↦ schedule_job env req requester at deployment function args s
    ]
