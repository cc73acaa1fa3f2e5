-- ===== src/Scheduler/Service.antt =====
-- backend/internal/scheduler/service.go: the errors and the helpers of the service's operations,
-- findFunction, buildPayload, parsePayload and payloadNamespaces.
use pbvex.Base.{
  ℕ, ◌==◌, ltb, Bool, true, false, ◌||◌, Option, none, some, List, [], ◌∷◌, length, Result, ok, err,
  if◌then◌else◌,
}
use pbvex.Deploy.Manifest.{FunctionType, mutation, action, FunctionDescriptor, DeploymentManifest}
use pbvex.Deploy.Repo.{RepoError}
use pbvex.Scheduler.Job.{Payload}
use pbvex.Scheduler.Worker.{Encoded, encoded, refused}

pub data SchedulerError : Type 0 where
  job_not_found job_not_cancelable job_not_retryable job_invalid_status : SchedulerError
  snapshot_not_found missing_app negative_delay delay_too_long : SchedulerError
  scheduled_in_past scheduled_too_late not_schedulable function_not_found : SchedulerError
  invalid_target_namespace invalid_args args_too_large database_error : SchedulerError
  bad_payload : SchedulerError
  repo : RepoError → SchedulerError

-- deploy.RootNamespace, the text "root".
abbrev pub root_namespace : ℕ
root_namespace = 1

-- ScheduleNamespacesFromContext.
pub record ScheduleNamespaces : Type 0 where
  pub owner : ℕ
  pub target : ℕ

-- The type is mutation or action; both visibilities pass the second test of findFunction.
abbrev pub is_schedulable : FunctionType → Bool
is_schedulable mutation = true
is_schedulable action = true
is_schedulable _ = false

unfoldable pub find_function :
    List FunctionDescriptor → ℕ → Result SchedulerError FunctionDescriptor
find_function [] name = err function_not_found
find_function (d ∷ ds) name =
    let rest = find_function ds name in
    if d.name == name then (if is_schedulable d.type then ok d else err not_schedulable) else rest

-- The namespace of the function's module, or the root.
unfoldable pub resolved_namespace : DeploymentManifest → FunctionDescriptor → ℕ
resolved_namespace m d = elim (m.namespace_for_module d.module_path) [
  | none ↦ root_namespace
  | some id ↦ id
]

unfoldable pub build_payload : ℕ → ℕ → ℕ → Encoded → ℕ → ℕ → ℕ → Result SchedulerError Payload
build_payload deployment function hash (refused e) owner target max_args = err invalid_args
build_payload deployment function hash (encoded args) owner target max_args =
    if ltb max_args (length args)
    then err args_too_large
    else ok (record {
      deployment_id = deployment;
      function_name = function;
      bundle_hash = hash;
      args = args;
      owner_namespace = owner;
      target_namespace = target;
    })

-- parsePayloadWithNamespaces; a field that is missing or no text is empty.
unfoldable pub parse_payload : Option Payload → Result SchedulerError Payload
parse_payload none = err bad_payload
parse_payload (some p) =
    if p.deployment_id == 0
      || p.function_name == 0
      || p.owner_namespace == 0
      || p.target_namespace == 0
    then err bad_payload
    else ok p

-- The ownership test of Cancel: it refuses where the requester has a namespace and the job's
-- payload does not decode or names another owner.
unfoldable pub owned_by : Option ScheduleNamespaces → Option Payload → Bool
owned_by none p = true
owned_by (some n) none = n.owner == 0
owned_by (some n) (some p) = n.owner == 0 || p.owner_namespace == n.owner
