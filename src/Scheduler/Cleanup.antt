-- ===== src/Scheduler/Cleanup.antt =====
-- backend/internal/scheduler/service.go: cleanupOld, which deletes old finished jobs and gives
-- their pins back.
pub mod Shrinks
use pbvex.Base.{
  ℕ, ◌-◌, ◌==◌, ltb, leb, Bool, true, false, not, ◌&&◌, Option, none, some, List, [], ◌∷◌, take,
  negsuc, Result, ok, err, if◌then◌else◌,
}
use pbvex.Sql.{Fault, no_fault, delete_rows, order_by, select_rows}
use pbvex.Deploy.Repo.{
  Deployment, Store, RepoError, deployment_not_found, pin_underflow, bad_manifest, database, pin,
}
use pbvex.Scheduler.Duration.{le_i64}
use pbvex.Scheduler.Config.{Config}
use pbvex.Scheduler.Env.{Env}
use pbvex.Scheduler.Job.{Job, is_terminal}

-- What the database does in one cleanup: whether the query succeeds, for each job id whether
-- Pin's query succeeds, the fault of Pin's UPDATE, and whether the row's deletion succeeds, and
-- whether the commit succeeds.
pub record Cleaning : Type 0 where
  pub selected : Bool
  pub queried : ℕ → Bool
  pub pin_fault : ℕ → Fault
  pub deleted : ℕ → Bool
  pub commits : Bool

-- status IN ('completed','failed','canceled') AND finished < {:cutoff}
unfoldable pub expired : ℕ → Job → Bool
expired cutoff j = is_terminal j.status && ltb j.finished cutoff

unfoldable pub expired_batch : Config → ℕ → List Job → List Job
expired_batch c cutoff jobs =
    take c.cleanup_batch
      (order_by (λ j k. leb j.finished k.finished) (select_rows (expired cutoff) jobs))

unfoldable pub delete_job : Bool → ℕ → Store → Option Store
delete_job true id s = some (record s { jobs = delete_rows (λ j. j.id == id) s.jobs })
delete_job false id s = none

-- One round of the loop, by what Pin returned: delete, skip, or abort.
unfoldable pub clean_one :
    Cleaning → Job → Result RepoError (List Deployment) → Store → Option Store
unfolding delete_job
clean_one w r (ok t) s = delete_job (w.deleted r.id) r.id (record s { deployments = t })
clean_one w r (err deployment_not_found) s = delete_job (w.deleted r.id) r.id s
clean_one w r (err pin_underflow) s = some s
clean_one w r (err bad_manifest) s = none
clean_one w r (err database) s = none

unfoldable pub clean_all : Cleaning → List Job → Store → Option Store
clean_all w [] s = some s
clean_all w (r ∷ rest) s =
    elim (clean_one w r
      (pin (w.queried r.id) (w.pin_fault r.id) r.deployment_id (negsuc 0) s.deployments) s) [
        | none ↦ none
        | some s' ↦ clean_all w rest s'
      ]

-- The store, and whether cleanupOld returned no error.
unfoldable pub cleanup_old : Config → Env → Cleaning → Store → Store × Bool
cleanup_old c env w s =
    let cutoff = env.date_time (env.now - c.job_history_retention) in
    if le_i64 c.job_history_retention 0
    then (s, true)
    else if not w.selected
    then (s, false)
    else elim (clean_all w (expired_batch c cutoff s.jobs) s) [
      | none ↦ (s, false)
      | some s' ↦ if w.commits then (s', true) else (s, false)
    ]
