-- ===== src/Scheduler/Cancel/Edges.antt =====
-- The writes of Cancel and of Retry are changes of the diagram, row by row.
use pbvex.Base.{
  ℕ, ◌==◌, ◌≡◌, refl, Bool, true, false, List, Result, ok, err, arith, Bool-cases, inl, inr,
}
use pbvex.Sql.{exec_update}
use pbvex.Sql.Rows.{Pointwise-exec_update}
use pbvex.Deploy.Manifest.{DeploymentManifest, FunctionDescriptor}
use pbvex.Deploy.Repo.{
  Store, RepoError, deployment_not_found, pin_underflow, bad_manifest, database, resolve,
}
use pbvex.Scheduler.Env.{Env, EnvLaws}
use pbvex.Scheduler.Job.{Job, Payload}
use pbvex.Scheduler.Service.{SchedulerError, find_function}
use pbvex.Scheduler.Edges.{Edge, Moves, Moves-refl, stay, cancel, requeue}
use pbvex.Scheduler.Cancel
use pbvex.Scheduler.Cancel.{
  cancelable, mark_canceled, cancel_write, requeueable, requeue_found, requeue_resolved,
  in_transaction, requeue_tx,
}

module _ (env : Env) (laws : EnvLaws env) where
  stays : (j : Job) → Edge env.uuid j j
  stays j = stay refl

  pub cancel_write-Moves : (r : Job) (t : List Job) → Moves env.uuid t (cancel_write env r t).0
  unfolding cancel_write cancelable mark_canceled
  cancel_write-Moves r t =
      Pointwise-exec_update (Edge env.uuid) stays env.fault _ _ t
        λ j h. cancel (ground arith) refl (ground arith) (laws.stamped env.now) (ground arith)

  found_function-Moves :
      (id : ℕ) (found : Result SchedulerError FunctionDescriptor) (t : List Job)
      → Moves env.uuid t (exec_update env.fault (requeueable id) (Cancel.requeue env) t).0
      → Moves env.uuid t (requeue_found env id found t).0
  unfolding requeue_found
  found_function-Moves id (err e) t m = Moves-refl env.uuid t
  found_function-Moves id (ok d) t m = m

  requeue_resolved-Moves :
      (id : ℕ) (p : Payload) (found : Result RepoError (DeploymentManifest × ℕ)) (t : List Job)
      → Moves env.uuid t (requeue_resolved env id p found t).0
  unfolding requeue_resolved requeueable Cancel.requeue
  requeue_resolved-Moves id p (err deployment_not_found) t = Moves-refl env.uuid t
  requeue_resolved-Moves id p (err pin_underflow) t = Moves-refl env.uuid t
  requeue_resolved-Moves id p (err bad_manifest) t = Moves-refl env.uuid t
  requeue_resolved-Moves id p (err database) t = Moves-refl env.uuid t
  requeue_resolved-Moves id p (ok (m, hash)) t =
      let written =
        Pointwise-exec_update (Edge env.uuid) stays env.fault (requeueable id) (Cancel.requeue env)
          t
          (λ (j : Job) (h : requeueable id j ≡ true).
            requeue (ground arith) refl (ground arith) refl refl (ground arith)) in
      elim (Bool-cases (hash == p.bundle_hash)) [
        | inl same ↦
            rw same (found_function-Moves id (find_function m.functions p.function_name) t written)
        | inr other ↦ rw other (Moves-refl env.uuid t)
      ]

  in_transaction-Moves :
      (commits : Bool) (s : Store) (r : List Job × Result SchedulerError (Unit {0}))
      → Moves env.uuid s.jobs r.0
      → Moves env.uuid s.jobs (in_transaction commits s r).0.jobs
  in_transaction-Moves commits s (jobs, err e) m = Moves-refl env.uuid s.jobs
  in_transaction-Moves true s (jobs, ok u) m = m
  in_transaction-Moves false s (jobs, ok u) m = Moves-refl env.uuid s.jobs

  pub requeue_tx-Moves :
      (queried commits : Bool) (id : ℕ) (p : Payload) (s : Store)
      → Moves env.uuid s.jobs (requeue_tx env queried commits id p s).0.jobs
  unfolding requeue_tx
  requeue_tx-Moves queried commits id p s =
      in_transaction-Moves commits s _
        (requeue_resolved-Moves id p (resolve queried p.deployment_id s.deployments) s.jobs)

deployments-in_transaction :
    (commits : Bool) (s : Store) (r : List Job × Result SchedulerError (Unit {0}))
    → (in_transaction commits s r).0.deployments ≡ s.deployments
deployments-in_transaction commits s (jobs, err e) = refl
deployments-in_transaction true s (jobs, ok u) = refl
deployments-in_transaction false s (jobs, ok u) = refl

pub deployments-requeue_tx :
    (env : Env) (queried commits : Bool) (id : ℕ) (p : Payload) (s : Store)
    → (requeue_tx env queried commits id p s).0.deployments ≡ s.deployments
unfolding requeue_tx
deployments-requeue_tx env queried commits id p s =
    deployments-in_transaction commits s
      (requeue_resolved env id p (resolve queried p.deployment_id s.deployments) s.jobs)
