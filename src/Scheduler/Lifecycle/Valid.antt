-- ===== src/Scheduler/Lifecycle/Valid.antt =====
-- Every row stays valid in every run of the scheduler.
use pbvex.Base.{ℕ, ◌≡◌, Bool, List, All, inl, inr, arith}
use pbvex.Sql.{Fault}
use pbvex.Sql.Rows.{Pointwise-All, All-append}
use pbvex.Deploy.Repo.{Store, trim_history}
use pbvex.Scheduler.Config.{Config}
use pbvex.Scheduler.Env.{Env, EnvLaws}
use pbvex.Scheduler.Job.{Job, Payload}
use pbvex.Scheduler.Edges.{Edge, Moves, IsValid, Edge-IsValid}
use pbvex.Scheduler.Worker.Edges.{
  claim_one-Moves, renew-Moves, fail-Moves, complete-Moves, retry-Moves, defer_admission-Moves,
  release-Moves, handle_error-Moves,
}
use pbvex.Scheduler.Cancel.Edges.{cancel_write-Moves, requeue_tx-Moves}
use pbvex.Scheduler.Schedule.{new_job}
use pbvex.Scheduler.Schedule.Effect.{schedule_job-cases}
use pbvex.Scheduler.Cleanup.Shrinks.{cleanup_old-All}
use pbvex.Scheduler.Cancel.{requeue_tx}
use pbvex.Scheduler.Lifecycle.{
  Write, claims, renews, fails, completes, retries, defers, releases, handles, cancels, Step,
  writes, requeues, schedules, cleans, trims, Reach, Reach-induction,
}

-- The writes of the worker and of Cancel.
pub Write-Moves :
    (c : Config) (env : Env) (laws : EnvLaws env) (t : List Job) {u : List Job}
    → Write c env t u
    → Moves env.uuid t u
Write-Moves c env laws t (claims r) = claim_one-Moves env laws c r t
Write-Moves c env laws t (renews id lease) = renew-Moves env laws c id lease t
Write-Moves c env laws t (fails r e) = fail-Moves env laws r e t
Write-Moves c env laws t (completes r v) = complete-Moves env laws r v t
Write-Moves c env laws t (retries jitter later r) = retry-Moves env laws c jitter later r t
Write-Moves c env laws t (defers r) = defer_admission-Moves env laws c r t
Write-Moves c env laws t (releases r) = release-Moves env laws r t
Write-Moves c env laws t (handles jitter later stopping r e) =
    handle_error-Moves env laws c jitter later stopping r e t
Write-Moves c env laws t (cancels r) = cancel_write-Moves env laws r t

-- An UPDATE of the jobs table: one of the worker's or of Cancel, or the one of Retry's transaction.
pub data Update (c : Config) (env : Env) (s : Store) : List Job → Type 0 where
  of_write : {u : List Job} → Write c env s.jobs u → Update c env s u
  of_retry :
      (queried commits : Bool) (id : ℕ) (p : Payload)
      → Update c env s (requeue_tx env queried commits id p s).0.jobs

-- Every UPDATE on the jobs table, by a worker, by Cancel or by Retry, where DateTimes and UUIDs
-- are not empty, moves each row along the diagram of job states, or leaves it, and neither adds
-- nor drops a row.
pub Update-Moves :
    (c : Config) (env : Env) (laws : EnvLaws env) (s : Store) {u : List Job}
    → Update c env s u
    → Moves env.uuid s.jobs u
Update-Moves c env laws s (of_write w) = Write-Moves c env laws s.jobs w
Update-Moves c env laws s (of_retry queried commits id p) =
    requeue_tx-Moves env laws queried commits id p s

pub jobs-trim_history :
    (queried : Bool) (faults : ℕ → Fault) (active_id previous_id keep : ℕ) (s : Store)
    → (trim_history queried faults active_id previous_id keep s).0.jobs ≡ s.jobs
unfolding trim_history
jobs-trim_history queried faults active_id previous_id keep s = ground arith

-- A property of rows that the diagram keeps, and that every new row has, holds in every run.
module _ (P : Job → Type 0) (c : Config) (Ok : Env → Type 0)
    (laws : (env : Env) → Ok env → EnvLaws env)
    (keep : (env : Env) (j k : Job) → Ok env → Edge env.uuid j k → P j → P k)
    (fresh : (env : Env) (id deployment at : ℕ) (p : Payload)
      → P (new_job env id deployment p at)) where
  Step-All : (env : Env) (s u : Store) → Ok env → Step c env s u → All P s.jobs → All P u.jobs
  Step-All env s u ok (writes w) h =
      Pointwise-All (Edge env.uuid) P s.jobs _ (λ j k. keep env j k ok)
        (Write-Moves c env (laws env ok) s.jobs w) h
  Step-All env s u ok (requeues queried commits id p) h =
      Pointwise-All (Edge env.uuid) P s.jobs _ (λ j k. keep env j k ok)
        (requeue_tx-Moves env (laws env ok) queried commits id p s) h
  Step-All env s u ok (schedules req requester at deployment function args isnew) h =
      elim (schedule_job-cases env req requester at deployment function args s) [
        | inl same ↦ rw same h
        | inr done ↦
            rw done.store
              (All-append P s.jobs _ h (fresh env req.new_id deployment at done.payload, tt))
      ]
  Step-All env s u ok (cleans w) h = cleanup_old-All P w c env s h
  Step-All env s u ok (trims queried faults active previous keep_n) h =
      rw (jobs-trim_history queried faults active previous keep_n s) h

  pub Reach-All : {s u : Store} → Reach c Ok s u → All P s.jobs → All P u.jobs
  Reach-All = Reach-induction c Ok (λ s. All P s.jobs) Step-All

new_job-IsValid :
    (env : Env) (id deployment at : ℕ) (p : Payload) → IsValid (new_job env id deployment p at)
unfolding new_job
new_job-IsValid env id deployment at p = ground arith

-- In every run, from any store with valid rows, with any interleaving of workers, requests,
-- cleanups and failing statements, every row is valid: exactly the running rows carry a lease and
-- its expiry, and exactly the terminal rows carry a finished time.
pub Reach-IsValid :
    (c : Config) {s u : Store} → Reach c EnvLaws s u → All IsValid s.jobs → All IsValid u.jobs
Reach-IsValid c =
    Reach-All IsValid c EnvLaws (λ env laws. laws) (λ env j k laws. Edge-IsValid env.uuid j k)
      new_job-IsValid
