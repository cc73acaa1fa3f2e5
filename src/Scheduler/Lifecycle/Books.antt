-- ===== src/Scheduler/Lifecycle/Books.antt =====
-- The books of the shared database over every run.
use pbvex.Base.{
  ℕ, ◌==◌, ◌≡◌, ap, ◌<◌, Bool, true, List, [], ◌∷◌, ◌++◌, pos, All, inl, inr, arith, ok,
}
use pbvex.Sql.{Fault}
use pbvex.Sql.Rows.{All-weaken, All-zip, All-find_row, find_row_pos, count_column_pos}
use pbvex.Deploy.Repo.{Deployment, Store, get_deployment, trim_history, pin, job_count, referenced}
use pbvex.Deploy.Repo.Trim.{
  referenced-All, trim_history-cases, doomed-Agrees, delete_all-spares, delete_all-All,
  delete_all-Keyed,
}
use pbvex.Scheduler.Config.{Config}
use pbvex.Scheduler.Env.{Env, EnvLaws}
use pbvex.Scheduler.Job.{Job, Payload}
use pbvex.Scheduler.Schedule.{Request, new_job}
use pbvex.Scheduler.Schedule.Effect.{schedule_job-cases}
use pbvex.Scheduler.Cancel.{requeue_tx}
use pbvex.Scheduler.Cancel.Edges.{requeue_tx-Moves, deployments-requeue_tx}
use pbvex.Scheduler.Lifecycle.{
  IsNew, Step, writes, requeues, schedules, cleans, trims, Reach, Reach-induction,
}
use pbvex.Scheduler.Lifecycle.Valid.{Write-Moves}
use pbvex.Scheduler.Lifecycle.Pinned.{Sound, HasDeployment, IsBalanced, Moves-Sound, insert-Sound}
use pbvex.Scheduler.Lifecycle.Expiry.{cleanup_old-Sound}

trim_history-Sound :
    (queried : Bool) (faults : ℕ → Fault) (active_id previous_id keep : ℕ) (s : Store)
    → Sound s
    → Sound (trim_history queried faults active_id previous_id keep s).0
trim_history-Sound queried faults active previous keep s v =
    elim (trim_history-cases queried faults active previous keep s) [
      | inl same ↦ rw same v
      | inr (t, ids, done, same) ↦ rw same (record {
        ids = v.ids;
        keyed = delete_all-Keyed s.jobs faults _ s.deployments [] done v.keyed;
        balanced = delete_all-All s.jobs _ faults _ s.deployments [] done v.balanced;
        supported =
            All-weaken
              (λ j. HasDeployment s.deployments j × (referenced j.deployment_id s.jobs ≡ true))
              (HasDeployment t) s.jobs
              (λ j both.
                rw
                  (delete_all-spares s.jobs faults j.deployment_id _ s.deployments [] both.1
                    (doomed-Agrees active previous keep s v.keyed) done)
                  both.0)
              (All-zip _ _ s.jobs v.supported (referenced-All s.jobs));
      })
    ]

requeue_tx-Sound :
    (env : Env) (laws : EnvLaws env) (queried commits : Bool) (id : ℕ) (p : Payload) (s : Store)
    → Sound s
    → Sound (requeue_tx env queried commits id p s).0
requeue_tx-Sound env laws queried commits id p s v =
    let same = deployments-requeue_tx env queried commits id p s in
    let moved = Moves-Sound env.uuid s _ (requeue_tx-Moves env laws queried commits id p s) v in
    record {
      ids = moved.ids;
      keyed = rw same v.keyed;
      balanced = rw same moved.balanced;
      supported = rw same moved.supported;
    }

inserted :
    (env : Env) (s : Store) (req : Request) (deployment at : ℕ) (p : Payload)
    {pinned : List Deployment}
    → pin req.queried req.pin_fault deployment (pos 1) s.deployments ≡ ok pinned
    → IsNew req.new_id s.jobs
    → Sound s
    → Sound (record {
      deployments = pinned;
      jobs = s.jobs ++ new_job env req.new_id deployment p at ∷ [];
    })
unfolding new_job
inserted env s req deployment at p h isnew v =
    insert-Sound s (new_job env req.new_id deployment p at) req.queried req.pin_fault h isnew v

Step-Sound :
    (c : Config) (env : Env) (s u : Store) → EnvLaws env → Step c env s u → Sound s → Sound u
Step-Sound c env s u laws (writes w) v =
    Moves-Sound env.uuid s _ (Write-Moves c env laws s.jobs w) v
Step-Sound c env s u laws (requeues queried commits id p) v =
    requeue_tx-Sound env laws queried commits id p s v
Step-Sound c env s u laws (schedules req requester at deployment function args isnew) v =
    elim (schedule_job-cases env req requester at deployment function args s) [
      | inl same ↦ rw same v
      | inr done ↦ rw done.store (inserted env s req deployment at done.payload done.pins isnew v)
    ]
Step-Sound c env s u laws (cleans w) v = cleanup_old-Sound c env w s v
Step-Sound c env s u laws (trims queried faults active previous keep) v =
    trim_history-Sound queried faults active previous keep s v

-- In every run of workers, requests, cleanups and trims from a store whose books balance, with
-- any statement failing, and with instants, DateTimes and UUIDs as documented, the books
-- balance: the pin counter of every deployment is the number of jobs that refer to it, every
-- job's deployment is still in the table, and record ids and deployment ids stay unique.
pub Reach-Sound : (c : Config) {s u : Store} → Reach c EnvLaws s u → Sound s → Sound u
Reach-Sound c = Reach-induction c EnvLaws Sound (Step-Sound c)

job_count_pos : (t : List Job) → All (λ j. 0 < job_count j.deployment_id t) t
unfolding job_count
job_count_pos t = count_column_pos (λ j. j.deployment_id) t

-- What GetDeployment returns for a deployment with jobs.
abbrev pub IsPinned : List Deployment → ℕ → Type 0
IsPinned t id = (d : Deployment) × (get_deployment true id t ≡ ok d) × (0 < d.pin_count)

loadable :
    (s : Store)
    → Sound s
    → (j : Job) → HasDeployment s.deployments j
    → 0 < job_count j.deployment_id s.jobs
    → IsPinned s.deployments j.deployment_id
unfolding get_deployment
loadable s v j has many =
    let (d, found) =
      find_row_pos (λ (x : Deployment). x.deployment_id == j.deployment_id) s.deployments has in
    let (here, even) =
      All-find_row (IsBalanced s.jobs) (λ (x : Deployment). x.deployment_id == j.deployment_id)
        s.deployments found v.balanced in
    let same : d.deployment_id ≡ j.deployment_id = ground arith in
    let counted : job_count d.deployment_id s.jobs ≡ job_count j.deployment_id s.jobs =
      ap (λ (x : ℕ). job_count x s.jobs) same in
    (d, rw (found, get_deployment), omega (arith, even, counted))

-- In every such run, from a store whose books balance, a job's deployment can be loaded when the
-- job comes to run: GetDeployment does not answer that it is missing, and its pin counter is
-- positive.
pub Reach-resolves :
    (c : Config) {s u : Store}
    → Reach c EnvLaws s u
    → Sound s
    → All (λ j. IsPinned u.deployments j.deployment_id) u.jobs
Reach-resolves c {s} {u} run v =
    let w = Reach-Sound c run v in
    All-weaken (λ j. HasDeployment u.deployments j × (0 < job_count j.deployment_id u.jobs)) _
      u.jobs (λ j both. loadable u w j both.0 both.1)
      (All-zip _ _ u.jobs w.supported (job_count_pos u.jobs))
