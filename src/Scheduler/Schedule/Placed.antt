-- ===== src/Scheduler/Schedule/Placed.antt =====
-- backend/internal/scheduler/service.go: the row that scheduleJob inserts, and the pin that it takes.
use pbvex.Base.{
  ℕ, ◌+◌, ◌≤◌, ◌≡◌, ◌≢◌, refl, sym, ap, ◌∙◌, ◌==◌, Bool, true, false, Bool-cases, Option-cases, ◌⊎◌,
  inl, inr, Option, none, some, List, [], ◌∷◌, ◌++◌, length, pos, ok, err, arith,
}
use pbvex.Sql.{Fault, no_fault, execute_fault, rows_fault, find_row, update_rows, exec_update}
use pbvex.Deploy.Manifest.{
  mutation, action, DeploymentManifest, FunctionDescriptor, normalize_config,
}
use pbvex.Deploy.Repo.{
  Store, Deployment, resolve, pin, get_deployment, pin_found, pin_record, pin_reply,
}
use pbvex.Scheduler.Env.{Env}
use pbvex.Scheduler.Job.{Payload, pending, null_metadata}
use pbvex.Scheduler.Worker.{Encoded, encoded, refused}
use pbvex.Scheduler.Service.{
  SchedulerError, ScheduleNamespaces, root_namespace, build_payload, resolved_namespace,
}
use pbvex.Scheduler.Run.Checks.{IsAmong, find_function-schedulable, schedulable-cases}
use pbvex.Scheduler.Schedule.{Request, new_job, owner_for, schedule_job}
use pbvex.Scheduler.Schedule.Effect.{Inserted, schedule_job-replies}

-- The deployment is a row of the table.
abbrev pub IsRow : Deployment → List Deployment → Type 0
IsRow d [] = ⊥
IsRow d (x ∷ xs) = (x ≡ d) ⊎ IsRow d xs

-- Row by row, the rows with this key have one pin more, and the others are the same.
abbrev pub IsPinnedOnce : ℕ → List Deployment → List Deployment → Type 0
IsPinnedOnce key [] [] = Unit
IsPinnedOnce key [] (y ∷ ys) = ⊥
IsPinnedOnce key (x ∷ xs) [] = ⊥
IsPinnedOnce key (x ∷ xs) (y ∷ ys) =
    (((x.id ≡ key) × (y ≡ record x { pin_count = x.pin_count + 1 })) ⊎ ((x.id ≢ key) × (y ≡ x)))
    × IsPinnedOnce key xs ys

-- The owner of the job: the root namespace, or the requester's if its target fits.
abbrev pub MayOwn : Option ScheduleNamespaces → ℕ → ℕ → Type 0
MayOwn none target owner = owner ≡ root_namespace
MayOwn (some n) target owner = ((n.target ≡ 0) ⊎ (n.target ≡ target)) × (owner ≡ n.owner)

-- The namespace of the component that the function's module belongs to, or the root namespace.
abbrev pub IsTarget : DeploymentManifest → FunctionDescriptor → ℕ → Type 0
IsTarget m d t =
    (m.namespace_for_module d.module_path ≡ some t)
    ⊎ ((m.namespace_for_module d.module_path ≡ none) × (t ≡ root_namespace))

-- What a call of scheduleJob that succeeds has done.
pub record IsPlaced (env : Env) (req : Request) (requester : Option ScheduleNamespaces)
    (at deployment function : ℕ) (args : Encoded) (s s' : Store) : Type 0 where
  pub row : Deployment
  pub there : IsRow row s.deployments × (row.deployment_id ≡ deployment)
  pub manifest : DeploymentManifest
  pub read : row.manifest ≡ some manifest
  pub descriptor : FunctionDescriptor
  pub listed : IsAmong descriptor manifest.functions × (descriptor.name ≡ function)
  pub type : (descriptor.type ≡ mutation) ⊎ (descriptor.type ≡ action)
  pub owner : ℕ
  pub target : ℕ
  pub targeted : IsTarget manifest descriptor target
  pub owned : MayOwn requester target owner
  pub bytes : List ℕ
  pub given : args ≡ encoded bytes
  pub small :
      length bytes ≤ (normalize_config req.default_config manifest.config).max_function_args_bytes
  pub pinned : IsPinnedOnce row.id s.deployments s'.deployments
  pub appended :
      s'.jobs
      ≡ s.jobs
        ++ (record {
          id = req.new_id;
          deployment_id = deployment;
          status = pending;
          payload = some (record {
            deployment_id = deployment;
            function_name = function;
            bundle_hash = row.bundle_hash;
            args = bytes;
            owner_namespace = owner;
            target_namespace = target;
          });
          scheduled_at = env.date_time at;
          started = 0;
          finished = 0;
          attempts = 0;
          lease = 0;
          lease_expires_at = 0;
          result = [];
          error = [];
          metadata = null_metadata;
          created = env.date_time env.now;
          updated = env.date_time env.now;
        }
            ∷ [])

find_row-IsRow :
    (id : ℕ) (t : List Deployment) {d : Deployment}
    → find_row (λ d. d.deployment_id == id) t ≡ some d
    → IsRow d t × (d.deployment_id ≡ id)
unfolding find_row
find_row-IsRow id [] h = absurd (ground arith)
find_row-IsRow id (x ∷ t) {d} h = elim (Bool-cases (x.deployment_id == id)) [
  | inl e ↦ (inl (ground arith), ground arith)
  | inr e ↦ let (i, q) = find_row-IsRow id t {d = d} (ground arith) in (inr i, q)
]

-- Resolve reads the row that GetDeployment finds.
resolve-IsRow :
    (queried : Bool) (id : ℕ) (t : List Deployment) {found : DeploymentManifest × ℕ}
    → resolve queried id t ≡ ok found
    → (d : Deployment) × (get_deployment queried id t ≡ ok d)
      × IsRow d t
      × (d.deployment_id ≡ id)
      × (d.manifest ≡ some found.0)
      × (d.bundle_hash ≡ found.1)
unfolding resolve get_deployment
resolve-IsRow false id t h = absurd (ground arith)
resolve-IsRow true id t {found} h = elim (Option-cases (find_row (λ d. d.deployment_id == id) t)) [
  | inl e ↦ absurd (ground arith)
  | inr (d, e) ↦ elim (Option-cases d.manifest) [
    | inl m ↦ absurd (ground arith)
    | inr (m, q) ↦
        let (i, n) = find_row-IsRow id t {d = d} e in
        (d, rw (e, get_deployment) refl, i, n, ground arith, ground arith)
  ]
]

raised-IsPinnedOnce :
    (key : ℕ) (t : List Deployment)
    → IsPinnedOnce key t
        (update_rows (λ x. x.id == key) (λ x. record x { pin_count = x.pin_count + 1 }) t)
unfolding update_rows
raised-IsPinnedOnce key [] = tt
raised-IsPinnedOnce key (x ∷ t) = elim (Bool-cases (x.id == key)) [
  | inl e ↦ rw e (inl (ground arith, refl), raised-IsPinnedOnce key t)
  | inr e ↦ rw e (inr (λ q. ground arith, refl), raised-IsPinnedOnce key t)
]

pin-IsPinnedOnce :
    (queried : Bool) (fault : Fault) (id : ℕ) (d : Deployment) (t : List Deployment)
    {u : List Deployment}
    → get_deployment queried id t ≡ ok d
    → pin queried fault id (pos 1) t ≡ ok u
    → IsPinnedOnce d.id t u
unfolding pin pin_found pin_record pin_reply exec_update
pin-IsPinnedOnce queried execute_fault id d t e h = absurd (ground arith)
pin-IsPinnedOnce queried rows_fault id d t e h = absurd (ground arith)
pin-IsPinnedOnce queried no_fault id d t {u} e h =
    let same : update_rows (λ x. x.id == d.id) (λ x. record x { pin_count = x.pin_count + 1 }) t
        ≡ u =
      ground arith in
    rw⁻¹ same (raised-IsPinnedOnce d.id t)

abbrev payload_of : ℕ → ℕ → ℕ → List ℕ → ℕ → ℕ → Payload
payload_of deployment function hash bytes owner target = record {
  deployment_id = deployment;
  function_name = function;
  bundle_hash = hash;
  args = bytes;
  owner_namespace = owner;
  target_namespace = target;
}

built-payload :
    (deployment function hash owner target max_args : ℕ) (args : Encoded) {p : Payload}
    → build_payload deployment function hash args owner target max_args ≡ ok p
    → (bytes : List ℕ) × (args ≡ encoded bytes)
      × (length bytes ≤ max_args)
      × (p ≡ payload_of deployment function hash bytes owner target)
unfolding build_payload
built-payload deployment function hash owner target max_args (refused e) h = absurd (ground arith)
built-payload deployment function hash owner target max_args (encoded bytes) h =
    (bytes, refl, ground arith, ground arith)

owner_for-MayOwn :
    (requester : Option ScheduleNamespaces) (target : ℕ) {owner : ℕ}
    → owner_for requester target ≡ ok owner
    → MayOwn requester target owner
unfolding owner_for
owner_for-MayOwn none target h = ground arith
owner_for-MayOwn (some n) target h = ground arith

resolved_namespace-IsTarget :
    (m : DeploymentManifest) (d : FunctionDescriptor) → IsTarget m d (resolved_namespace m d)
unfolding resolved_namespace
resolved_namespace-IsTarget m d = elim (Option-cases (m.namespace_for_module d.module_path)) [
  | inl e ↦ inr (e, rw (e, resolved_namespace) refl)
  | inr (id, e) ↦ inl (e ∙ rw (e, resolved_namespace) refl)
]

placed :
    (env : Env) (req : Request) (requester : Option ScheduleNamespaces) (at deployment function : ℕ)
    (args : Encoded) (s s' : Store)
    → Inserted env req requester at deployment function args s s'
    → IsPlaced env req requester at deployment function args s s'
unfolding new_job
placed env req requester at deployment function args s s' i =
    let m = i.found.0 in
    let d = i.descriptor in
    let (row, got, is_row, is_id, read, hash) =
      resolve-IsRow req.queried deployment s.deployments {found = i.found} i.resolves in
    let (named, type, among) = find_function-schedulable m.functions function {d = d} i.finds in
    let (bytes, given, small, payload) =
      built-payload deployment d.name i.found.1 i.owner (resolved_namespace m d)
        (normalize_config req.default_config m.config).max_function_args_bytes args {p = i.payload}
        i.builds in
    record {
      row = row;
      there = (is_row, is_id);
      manifest = m;
      read = read;
      descriptor = d;
      listed = (among, named);
      type = schedulable-cases d.type type;
      owner = i.owner;
      target = resolved_namespace m d;
      targeted = resolved_namespace-IsTarget m d;
      owned = owner_for-MayOwn requester (resolved_namespace m d) {owner = i.owner} i.owns;
      bytes = bytes;
      given = given;
      small = small;
      pinned =
          rw (ap (λ (x : Store). x.deployments) i.store)
            (pin-IsPinnedOnce req.queried req.pin_fault deployment row s.deployments got i.pins);
      appended =
          ap (λ (x : Store). x.jobs) i.store
          ∙ ap (λ p. s.jobs ++ new_job env req.new_id deployment p at ∷ [])
              (payload
                ∙ ap (λ f. payload_of deployment f i.found.1 bytes i.owner (resolved_namespace m d))
                    named
                ∙ ap (λ h. payload_of deployment function h bytes i.owner (resolved_namespace m d))
                    (sym hash));
    }

-- A call of scheduleJob that answers with an error leaves the store as it was. One that succeeds
-- answers with the id of a new pending row at the end of the jobs, whose payload has the bundle
-- hash of the deployment's record, the encoded arguments, within the manifest's limit, a mutation
-- or action that the manifest lists under the name, its namespace, and an owner that fits; and it
-- has added one pin to the record of the deployment and none to others.
pub schedule_job-IsPlaced :
    (env : Env) (req : Request) (requester : Option ScheduleNamespaces) (at deployment function : ℕ)
    (args : Encoded) (s : Store)
    → (((schedule_job env req requester at deployment function args s).0 ≡ s)
        × ((e : SchedulerError) × ((schedule_job env req requester at deployment function args s).1
              ≡ err e)))
      ⊎ (((schedule_job env req requester at deployment function args s).1 ≡ ok req.new_id)
          × IsPlaced env req requester at deployment function args s
              (schedule_job env req requester at deployment function args s).0)
schedule_job-IsPlaced env req requester at deployment function args s =
    elim (schedule_job-replies env req requester at deployment function args s) [
      | inl failed ↦ inl failed
      | inr (replied, i) ↦ inr (replied, placed env req requester at deployment function args s _ i)
    ]
