-- ===== src/Scheduler/Run.antt =====
-- backend/internal/scheduler/worker.go: runJob. What other workers and requests do to the store
-- happens between its statements: `before_check` between the claim and the count that closes the
-- race with Cancel, `before_run` up to the invocation, `during` while the function runs.
pub mod Checks
use pbvex.Base.{
  ℕ, ◌==◌, Bool, true, false, not, ◌&&◌, Option, none, some, List, [], ◌∷◌, ◌++◌, Result, ok, err,
  ltb, codes, if◌then◌else◌,
}
use pbvex.Sql.{count_rows}
use pbvex.Deploy.Manifest.{DeploymentManifest, FunctionDescriptor}
use pbvex.Deploy.Repo.{Store, RepoError, resolve}
use pbvex.Scheduler.Config.{Config}
use pbvex.Scheduler.Env.{Env}
use pbvex.Scheduler.Failure.{
  GoError, other, has, is_application, admission_started, handled_failure,
}
use pbvex.Scheduler.Job.{Job, Payload, holds}
use pbvex.Scheduler.Service.{SchedulerError, parse_payload, find_function, resolved_namespace}
use pbvex.Scheduler.Worker.{Encoded, fail, complete, defer_admission, handle_error}

-- What InvokeDeploymentSnapshot does: it returns a value, with what CanonicalJSON makes of it,
-- or an error, or it panics with a text.
pub data Invocation : Type 0 where
  returned : Encoded → Invocation
  raised : GoError → Invocation
  panicked : List ℕ → Invocation

-- Why a run fails its job before the invocation.
pub data Refusal : Type 0 where
  unreadable_payload missing_bundle_hash snapshot_mismatch : Refusal
  function_unavailable namespace_mismatch : Refusal

-- fmt.Errorf makes an error with no cause that the scheduler looks for. Its text may quote the
-- JSON decoder or findFunction, and comes from outside.
abbrev pub refusal_error : (Refusal → List ℕ) → Refusal → GoError
refusal_error texts x = record { causes = other ∷ []; message = texts x }

-- The checks up to the invocation, on the payload and the deployments: what is to be invoked.
unfoldable pub check_function : Payload → DeploymentManifest → Result Refusal FunctionDescriptor
check_function p m = elim (find_function m.functions p.function_name) [
  | err e ↦ err function_unavailable
  | ok d ↦ if p.target_namespace == resolved_namespace m d then ok d else err namespace_mismatch
]

unfoldable pub check_snapshot :
    Payload → Result RepoError (DeploymentManifest × ℕ) → Result Refusal FunctionDescriptor
unfolding check_function
check_snapshot p (err e) = err snapshot_mismatch
check_snapshot p (ok (m, hash)) =
    if hash == p.bundle_hash then check_function p m else err snapshot_mismatch

unfoldable pub check_job : Bool → Job → Store → Result Refusal FunctionDescriptor
unfolding check_snapshot
check_job queried r s = elim (parse_payload r.payload) [
  | err e ↦ err unreadable_payload
  | ok p ↦
      if p.bundle_hash == 0
      then err missing_bundle_hash
      else check_snapshot p (resolve queried p.deployment_id s.deployments)
]

-- LogUnexpectedHandlerFailure is `logs`: whether the error was logged as a handler failure.
settle_error :
    Config → (ℕ → ℕ) → Env → ℕ → Bool → (GoError → Bool) → Job → GoError → List Job → List Job
settle_error c jitter env later stopping logs r e t = elim (admission_started e.causes) [
  | some true ↦ fail env r e t
  | some false ↦ defer_admission c env r t
  | none ↦
      if has is_application e
      then handle_error c jitter env later stopping r (handled_failure e) t
      else if logs e
      then handle_error c jitter env later stopping r (handled_failure e) t
      else handle_error c jitter env later stopping r e t
]

panic_error : List ℕ → GoError
panic_error message = record { causes = other ∷ []; message = codes "panic: " ++ message }

-- The table after the invocation.
unfoldable pub settle :
    Config → (ℕ → ℕ) → Env → ℕ → Bool → (GoError → Bool) → Job → Invocation → List Job → List Job
unfolding settle_error panic_error
settle c jitter env later stopping logs r (returned v) t = complete env r v t
settle c jitter env later stopping logs r (raised e) t =
    settle_error c jitter env later stopping logs r e t
settle c jitter env later stopping logs r (panicked message) t = fail env r (panic_error message) t

-- What one run of a job takes from outside.
pub record World : Type 0 where
  pub before_check : Store → Store
  pub counted : Bool
  pub before_run : Store → Store
  pub queried : Bool
  pub invoke : FunctionDescriptor → Payload → Invocation
  pub during : Store → Store
  pub logs : GoError → Bool
  pub stopping : Bool
  pub jitter : ℕ → ℕ
  pub later : ℕ
  pub texts : Refusal → List ℕ

-- CountRecords of the claim: the attempt goes on only if its lease still stands in the row.
unfoldable pub still_ours : Bool → Job → List Job → Bool
still_ours counted r t = counted && ltb 0 (count_rows (holds r.id r.lease) t)

unfoldable pub run_checked :
    Config → Env → World → Job → Store → Result Refusal FunctionDescriptor → Store
run_checked c env w r s (err x) = record s { jobs = fail env r (refusal_error w.texts x) s.jobs }
run_checked c env w r s (ok d) = elim r.payload [
  | none ↦ s
  | some p ↦
      let s' = w.during s in
      record s' { jobs = settle c w.jitter env w.later w.stopping w.logs r (w.invoke d p) s'.jobs }
]

-- The store after the run, and whether the function was invoked.
unfoldable pub run_job : Config → Env → World → Job → Store → Store × Bool
unfolding run_checked
run_job c env w r s =
    let s₁ = w.before_check s in
    let s₂ = w.before_run s₁ in
    let checked = check_job w.queried r s₂ in
    if still_ours w.counted r s₁.jobs
    then (run_checked c env w r s₂ checked, elim checked [ err x ↦ false | ok d ↦ true ])
    else (s₁, false)
