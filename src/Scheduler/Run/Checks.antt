-- ===== src/Scheduler/Run/Checks.antt =====
-- When a run invokes its function, and what it writes otherwise.
use pbvex.Base.{
  refl, ◌⊎◌, ℕ, ◌==◌, ◌≡◌, inl, inr, ◌<◌, Bool, true, List, [], ◌∷◌, ok, arith, Bool-cases,
  Result-cases,
}
use pbvex.Deploy.Manifest.{
  FunctionType, mutation, action, query, http_action, DeploymentManifest, FunctionDescriptor,
}
use pbvex.Deploy.Repo.{Store, resolve}
use pbvex.Scheduler.Config.{Config}
use pbvex.Scheduler.Env.{Env}
use pbvex.Scheduler.Job.{Job, Payload, running}
use pbvex.Scheduler.Service.{parse_payload, find_function, resolved_namespace, is_schedulable}
use pbvex.Scheduler.Run.{check_function, check_snapshot, check_job, World, settle}

-- The descriptor is one of the manifest's.
abbrev pub IsAmong : FunctionDescriptor → List FunctionDescriptor → Type 0
IsAmong d [] = ⊥
IsAmong d (x ∷ ds) = (d ≡ x) ⊎ IsAmong d ds

-- Some row has the id and the lease.
abbrev pub IsHolder : ℕ → ℕ → List Job → Type 0
IsHolder id lease [] = ⊥
IsHolder id lease (j ∷ js) =
    ((j.id ≡ id) × (j.lease ≡ lease) × (j.status ≡ running)) ⊎ IsHolder id lease js

pub find_function-schedulable :
    (ds : List FunctionDescriptor) (name : ℕ) {d : FunctionDescriptor}
    → find_function ds name ≡ ok d
    → (d.name ≡ name) × (is_schedulable d.type ≡ true) × IsAmong d ds
unfolding find_function
find_function-schedulable [] name h = absurd (ground arith)
find_function-schedulable (x ∷ ds) name {d} h = elim (Bool-cases (x.name == name)) [
  | inl here ↦ (ground arith, ground arith, inl (ground arith))
  | inr there ↦
      let rest : find_function ds name ≡ ok d = ground arith in
      let (named, type, among) = find_function-schedulable ds name rest in (named, type, inr among)
]

pub schedulable-cases : (t : FunctionType) → is_schedulable t ≡ true → (t ≡ mutation) ⊎ (t ≡ action)
schedulable-cases mutation h = inl refl
schedulable-cases action h = inr refl
schedulable-cases query h = absurd (ground arith)
schedulable-cases http_action h = absurd (ground arith)

-- What holds when the function of a job is invoked.
pub record MayInvoke (queried : Bool) (r : Job) (s : Store) (d : FunctionDescriptor) : Type 0 where
  pub payload : Payload
  pub manifest : DeploymentManifest
  pub parsed : parse_payload r.payload ≡ ok payload
  pub snapshot :
      resolve queried payload.deployment_id s.deployments ≡ ok (manifest, payload.bundle_hash)
  pub pinned : 0 < payload.bundle_hash
  pub among : IsAmong d manifest.functions
  pub name : d.name ≡ payload.function_name
  pub type : (d.type ≡ mutation) ⊎ (d.type ≡ action)
  pub namespace : payload.target_namespace ≡ resolved_namespace manifest d

pub check_job-MayInvoke :
    (queried : Bool) (r : Job) (s : Store) {d : FunctionDescriptor}
    → check_job queried r s ≡ ok d
    → MayInvoke queried r s d
unfolding check_job check_snapshot check_function
check_job-MayInvoke queried r s {d} h = elim (Result-cases (parse_payload r.payload)) [
  | inr (e, q) ↦ absurd (ground arith)
  | inl (p, q) ↦ elim (Result-cases (resolve queried p.deployment_id s.deployments)) [
    | inr (e, x) ↦ absurd (ground arith)
    | inl ((m, hash), x) ↦ elim (Result-cases (find_function m.functions p.function_name)) [
      | inr (e, f) ↦ absurd (ground arith)
      | inl (d', f) ↦
          let same : d' ≡ d = ground arith in
          let known = find_function-schedulable m.functions p.function_name f in
          record {
            payload = p;
            manifest = m;
            parsed = q;
            snapshot = ground arith;
            pinned = ground arith;
            among = rw⁻¹ same known.2;
            name = ground arith;
            type = schedulable-cases d.type (ground arith);
            namespace = ground arith;
          }
    ]
  ]
]

-- What a run that has invoked a function did: its lease still stood, the checks on the store at
-- that time allowed the function, and the jobs are those of `settle` on what the function answered
-- to the job's own payload.
pub record HasInvoked (c : Config) (env : Env) (w : World) (r : Job) (s u : Store) : Type 0 where
  pub holder : IsHolder r.id r.lease (w.before_check s).jobs
  pub function : FunctionDescriptor
  pub allowed : MayInvoke w.queried r (w.before_run (w.before_check s)) function
  pub deployments : u.deployments ≡ (w.during (w.before_run (w.before_check s))).deployments
  pub jobs :
      u.jobs
      ≡ settle c w.jitter env w.later w.stopping w.logs r
          (w.invoke function allowed.payload)
          (w.during (w.before_run (w.before_check s))).jobs
