-- ===== src/Scheduler/Worker.antt =====
-- backend/internal/scheduler/worker.go: the writes that a worker makes to the jobs table. Each
-- takes the record as the attempt read it and returns the table; log lines are left out.
pub mod Edges
pub mod Claiming
use pbvex.Base.{
  ℕ, ◌+◌, ◌-◌, ◌==◌, leb, ltb, Bool, true, false, ◌&&◌, ◌||◌, Option, none, some, List, [], ◌∷◌,
  codes, if◌then◌else◌,
}
use pbvex.Sql.{Fault, exec_update}
use pbvex.Scheduler.Duration.{add_time, minute, lt_i64, le_i64}
use pbvex.Scheduler.Config.{Config}
use pbvex.Scheduler.Backoff.{retry_backoff}
use pbvex.Scheduler.Env.{Env}
use pbvex.Scheduler.Failure.{
  GoError, err_max_attempts, has, is_canceled, is_handled, is_application, is_goja,
  is_deployment_not_found, is_forbidden, is_active_not_found, is_invalid_bundle,
  is_invalid_manifest, is_activation_failed, persisted_error_message, error_type,
}
use pbvex.Scheduler.Job.{
  Job, pending, running, failed, completed, Status, null_json, null_metadata, failure, holds,
  is_pending, is_running,
}

-- What claimOne reports: an error of the database, no claim, or the record as the worker keeps it.
pub data Claim : Type 0 where
  claim_error : Claim
  not_claimed : Claim
  claimed : Job → Claim

-- The WHERE of claimOne, by the status in the record that the query returned.
unfoldable pub claimable : Job → ℕ → Job → Bool
claimable r now j = elim r.status [
  | pending ↦
      j.id == r.id
      && is_pending j.status
      && j.lease == 0
      && j.lease_expires_at == 0
      && leb j.scheduled_at now
  | running ↦
      j.id == r.id
      && is_running j.status
      && j.lease == r.lease
      && j.lease_expires_at == r.lease_expires_at
      && leb j.lease_expires_at now
  | _ ↦ false
]

-- The SET of claimOne.
unfoldable pub take_lease : Config → Env → Job → Job
take_lease c env j =
    let now = env.date_time env.now in
    record j {
      status = running;
      lease = env.uuid;
      lease_expires_at = env.date_time (add_time env.now c.lease_duration);
      attempts = j.attempts + 1;
      started = if j.started == 0 then now else j.started;
      updated = now;
    }

unfoldable pub claim_reply : Option ℕ → Job → Claim
claim_reply none r = claim_error
claim_reply (some affected) r = if affected == 0 then not_claimed else claimed r

-- The record keeps the fields that the query read, with those of the claim set on it.
unfoldable pub claim_one : Config → Env → Job → List Job → List Job × Claim
unfolding claim_reply
claim_one c env r table =
    if is_pending r.status || is_running r.status
    then (let (table', affected) =
          exec_update env.fault (claimable r (env.date_time env.now)) (take_lease c env) table in
        (table', claim_reply affected (take_lease c env r)))
    else (table, not_claimed)

-- renew: the table, and whether the attempt still holds the lease.
unfoldable pub renew : Config → Env → ℕ → ℕ → List Job → List Job × Bool
renew c env id lease table =
    let (table', affected) =
      exec_update env.fault (holds id lease)
        (λ j. record j {
          lease_expires_at = env.date_time (add_time env.now c.lease_duration);
          updated = env.date_time env.now;
        })
        table in
    (table', elim affected [ none ↦ false | some n ↦ ltb 0 n ])

unfoldable pub fail : Env → Job → GoError → List Job → List Job
fail env r e table =
    let now = env.date_time env.now in
    let message = persisted_error_message e in
    (exec_update env.fault (holds r.id r.lease)
      (λ j. record j {
        status = failed;
        error = message;
        metadata = failure (error_type e) message;
        result = null_json;
        finished = now;
        lease = 0;
        lease_expires_at = 0;
        updated = now;
      })
      table).0

-- `result` is the canonical JSON of the value, or the error that deploy.CanonicalJSON returned.
pub data Encoded : Type 0 where
  encoded : List ℕ → Encoded
  refused : GoError → Encoded

unfoldable pub complete : Env → Job → Encoded → List Job → List Job
complete env r (refused e) table = fail env r e table
complete env r (encoded json) table =
    let now = env.date_time env.now in
    (exec_update env.fault (holds r.id r.lease)
      (λ j. record j {
        status = completed;
        result = json;
        metadata = null_metadata;
        finished = now;
        lease = 0;
        lease_expires_at = 0;
        updated = now;
      })
      table).0

-- `errMaxAttemptsExceeded`.
abbrev pub max_attempts_exceeded : GoError
max_attempts_exceeded = record {
  causes = err_max_attempts ∷ [];
  message = codes "max attempts exceeded";
}

-- The clock is read twice: `env.now` for scheduledAt and then `later`.
unfoldable pub retry : Config → (ℕ → ℕ) → Env → ℕ → Job → List Job → List Job
retry c jitter env later r table =
    if le_i64 c.max_attempts r.attempts
    then fail env r max_attempts_exceeded table
    else (exec_update env.fault (holds r.id r.lease)
        (λ j. record j {
          status = pending;
          scheduled_at = env.date_time (add_time env.now (retry_backoff c jitter r.attempts));
          lease = 0;
          lease_expires_at = 0;
          result = null_json;
          metadata = null_metadata;
          error = [];
          updated = env.date_time later;
        })
        table).0

abbrev pub admission_message : List ℕ
admission_message = codes "Execution admission unavailable or denied."

-- The claimed attempt is given back; the counter stops at 0.
unfoldable pub defer_admission : Config → Env → Job → List Job → List Job
defer_admission c env r table =
    let delay = if lt_i64 c.retry_max_delay minute then minute else c.retry_max_delay in
    (exec_update env.fault (holds r.id r.lease)
      (λ j. record j {
        status = pending;
        scheduled_at = env.date_time (add_time env.now delay);
        attempts = r.attempts - 1;
        lease = 0;
        lease_expires_at = 0;
        updated = env.date_time env.now;
        error = admission_message;
      })
      table).0

unfoldable pub release : Env → Job → List Job → List Job
release env r table =
    let now = env.date_time env.now in
    (exec_update env.fault (holds r.id r.lease)
      (λ j. record j {
        status = pending;
        scheduled_at = now;
        lease = 0;
        lease_expires_at = 0;
        updated = now;
      })
      table).0

-- handleError. `stopping` is w.ctx.Err() != nil.
unfoldable pub handle_error :
    Config → (ℕ → ℕ) → Env → ℕ → Bool → Job → GoError → List Job → List Job
handle_error c jitter env later stopping r e table =
    if has is_canceled e
    then (if stopping then release env r table else table)
    else if has is_handled e && has is_application e
    then fail env r e table
    else if has is_goja e
    then fail env r e table
    else if has is_deployment_not_found e
        || has is_forbidden e
        || has is_active_not_found e
        || has is_invalid_bundle e
        || has is_invalid_manifest e
        || has is_activation_failed e
    then fail env r e table
    else retry c jitter env later r table
