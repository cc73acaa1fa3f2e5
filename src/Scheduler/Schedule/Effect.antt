-- ===== src/Scheduler/Schedule/Effect.antt =====
-- What scheduleJob does to the store: nothing, or one pin and one new row.
use pbvex.Base.{
  ℕ, ◌≡◌, refl, ◌⊎◌, Option, List, [], ◌∷◌, ◌++◌, pos, Result, ok, err, Result-cases, Bool-cases,
  inl, inr, arith,
}
use pbvex.Deploy.Manifest.{DeploymentManifest, FunctionDescriptor, normalize_config}
use pbvex.Deploy.Repo.{Store, Deployment, resolve, pin}
use pbvex.Scheduler.Env.{Env}
use pbvex.Scheduler.Job.{Payload}
use pbvex.Scheduler.Worker.{Encoded}
use pbvex.Scheduler.Service.{
  SchedulerError, database_error, ScheduleNamespaces, find_function, build_payload,
  resolved_namespace,
}
use pbvex.Scheduler.Schedule.{Request, new_job, owner_for, schedule_in_tx, schedule_job, commit}

module _ (env : Env) (req : Request) (requester : Option ScheduleNamespaces)
    (at deployment function : ℕ) (args : Encoded) (s : Store) where
  -- The store after a success.
  pub record Inserted (s' : Store) : Type 0 where
    pub found : DeploymentManifest × ℕ
    pub pinned : List Deployment
    pub payload : Payload
    pub descriptor : FunctionDescriptor
    pub owner : ℕ
    pub finds : find_function found.0.functions function ≡ ok descriptor
    pub owns : owner_for requester (resolved_namespace found.0 descriptor) ≡ ok owner
    pub builds :
        build_payload deployment descriptor.name found.1 args owner
          (resolved_namespace found.0 descriptor)
          (normalize_config req.default_config found.0.config).max_function_args_bytes
        ≡ ok payload
    pub resolves : resolve req.queried deployment s.deployments ≡ ok found
    pub pins : pin req.queried req.pin_fault deployment (pos 1) s.deployments ≡ ok pinned
    pub store : s' ≡ record {
      deployments = pinned;
      jobs = s.jobs ++ new_job env req.new_id deployment payload at ∷ [];
    }

  schedule_in_tx-Inserted :
      {s' : Store}
      → schedule_in_tx env req requester at deployment function args s ≡ ok s'
      → Inserted s'
  unfolding schedule_in_tx
  schedule_in_tx-Inserted {s'} h =
      elim (Result-cases (resolve req.queried deployment s.deployments)) [
        | inr (e, r) ↦ absurd (ground arith)
        | inl (found, r) ↦ elim (Result-cases (find_function found.0.functions function)) [
          | inr (e, f) ↦ absurd (ground arith)
          | inl (d, f) ↦ elim (Result-cases (owner_for requester (resolved_namespace found.0 d))) [
            | inr (e, o) ↦ absurd (ground arith)
            | inl (owner, o) ↦ elim (Result-cases (payload_of found d owner)) [
              | inr (e, p) ↦ absurd (ground arith)
              | inl (payload, p) ↦
                  elim (Result-cases
                    (pin req.queried req.pin_fault deployment (pos 1) s.deployments)) [
                      | inr (e, q) ↦ absurd (ground arith)
                      | inl (pinned, q) ↦ record {
                        found = found;
                        pinned = pinned;
                        payload = payload;
                        descriptor = d;
                        owner = owner;
                        finds = f;
                        owns = o;
                        builds = p;
                        resolves = r;
                        pins = q;
                        store = ground arith;
                      }
                    ]
            ]
          ]
        ]
      ]
    where
      payload_of : DeploymentManifest × ℕ → FunctionDescriptor → ℕ → Result SchedulerError Payload
      payload_of found d owner =
          build_payload deployment d.name found.1 args owner (resolved_namespace found.0 d)
            (normalize_config req.default_config found.0.config).max_function_args_bytes

  commit_cases :
      (r : Result SchedulerError Store)
      → (((commit req.commits req.new_id s r).0 ≡ s)
          × ((e : SchedulerError) × ((commit req.commits req.new_id s r).1 ≡ err e)))
        ⊎ ((s' : Store) × (r ≡ ok s')
            × ((commit req.commits req.new_id s r).0 ≡ s')
            × ((commit req.commits req.new_id s r).1 ≡ ok req.new_id))
  unfolding commit
  commit_cases (err e) = inl (refl, (e, refl))
  commit_cases (ok s') = elim (Bool-cases req.commits) [
    | inl c ↦ inr (s', refl, ground arith, ground arith)
    | inr c ↦ inl (ground arith, (database_error, ground arith))
  ]

  -- A call of scheduleJob that fails leaves the store as it was; one that succeeds has pinned the
  -- deployment once and appended the new row.
  pub schedule_job-replies :
      (((schedule_job env req requester at deployment function args s).0 ≡ s)
        × ((e : SchedulerError) × ((schedule_job env req requester at deployment function args s).1
              ≡ err e)))
      ⊎ (((schedule_job env req requester at deployment function args s).1 ≡ ok req.new_id)
          × Inserted (schedule_job env req requester at deployment function args s).0)
  unfolding schedule_job
  schedule_job-replies =
      elim (commit_cases (schedule_in_tx env req requester at deployment function args s)) [
        | inl same ↦ inl same
        | inr (s', r, e, replied) ↦ inr (replied, rw e (schedule_in_tx-Inserted r))
      ]

  pub schedule_job-cases :
      ((schedule_job env req requester at deployment function args s).0 ≡ s)
      ⊎ Inserted (schedule_job env req requester at deployment function args s).0
  schedule_job-cases = elim schedule_job-replies [
    | inl (same, e) ↦ inl same
    | inr (replied, inserted) ↦ inr inserted
  ]
