-- ===== src/Scheduler/Lifecycle.antt =====
-- The scheduler as a transition system: any number of workers, requests and cleanups, each of
-- whose writes to the database is one step, in any order. A worker may act on any record, however
-- old, and every statement may fail.
pub mod Valid
pub mod Pinned
pub mod Expiry
pub mod Books
pub mod Fencing
use pbvex.Base.{ℕ, ◌≡◌, ◌≢◌, ◌<◌, Bool, Option, List, All}
use pbvex.Sql.{Fault}
use pbvex.Deploy.Repo.{Store, trim_history, migrate_pin_count}
use pbvex.Scheduler.Config.{Config}
use pbvex.Scheduler.Env.{Env, EnvLaws}
use pbvex.Scheduler.Failure.{GoError}
use pbvex.Scheduler.Job.{Job, Payload}
use pbvex.Scheduler.Worker.{
  Encoded, claim_one, renew, fail, complete, retry, defer_admission, release, handle_error,
}
use pbvex.Scheduler.Cancel.{cancel_write, requeue_tx}
use pbvex.Scheduler.Schedule.{Request, schedule_job}
use pbvex.Scheduler.Service.{ScheduleNamespaces}
use pbvex.Scheduler.Cleanup.{Cleaning, cleanup_old}

-- The statements that write to the jobs table alone.
pub data Write (c : Config) (env : Env) (t : List Job) : List Job → Type 0 where
  claims : (r : Job) → Write c env t (claim_one c env r t).0
  renews : (id lease : ℕ) → Write c env t (renew c env id lease t).0
  fails : (r : Job) (e : GoError) → Write c env t (fail env r e t)
  completes : (r : Job) (v : Encoded) → Write c env t (complete env r v t)
  retries : (jitter : ℕ → ℕ) (later : ℕ) (r : Job) → Write c env t (retry c jitter env later r t)
  defers : (r : Job) → Write c env t (defer_admission c env r t)
  releases : (r : Job) → Write c env t (release env r t)
  handles :
      (jitter : ℕ → ℕ) (later : ℕ) (stopping : Bool) (r : Job) (e : GoError)
      → Write c env t (handle_error c jitter env later stopping r e t)
  cancels : (r : Job) → Write c env t (cancel_write env r t).0

-- A record id that PocketBase draws for a new row is not the id of another row.
abbrev pub IsNew : ℕ → List Job → Type 0
IsNew id = All (λ j. j.id ≢ id)

-- One transaction of the program on the shared database.
pub data Step (c : Config) (env : Env) (s : Store) : Store → Type 0 where
  writes : {t : List Job} → Write c env s.jobs t → Step c env s (record s { jobs = t })
  requeues :
      (queried commits : Bool) (id : ℕ) (p : Payload)
      → Step c env s (requeue_tx env queried commits id p s).0
  schedules :
      (req : Request) (requester : Option ScheduleNamespaces) (at deployment function : ℕ)
      (args : Encoded)
      → IsNew req.new_id s.jobs
      → Step c env s (schedule_job env req requester at deployment function args s).0
  cleans : (w : Cleaning) → Step c env s (cleanup_old c env w s).0
  trims :
      (queried : Bool) (faults : ℕ → Fault) (active_id previous_id keep : ℕ)
      → Step c env s (trim_history queried faults active_id previous_id keep s).0

-- Any number of steps, each in an environment that satisfies `Ok`.
pub data Reach (c : Config) (Ok : Env → Type 0) (s : Store) : Store → Type 0 where
  here : Reach c Ok s s
  next : {t u : Store} → Reach c Ok s t → (env : Env) → Ok env → Step c env t u → Reach c Ok s u

-- An invariant of the steps is an invariant of every run.
pub Reach-induction :
    (c : Config) (Ok : Env → Type 0) (P : Store → Type 0)
    → ((env : Env) (s u : Store) → Ok env → Step c env s u → P s → P u)
    → {s u : Store} → Reach c Ok s u
    → P s
    → P u
Reach-induction c Ok P step here h = h
Reach-induction c Ok P step (next r env ok st) h =
    step env _ _ ok st (Reach-induction c Ok P step r h)
