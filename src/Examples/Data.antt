-- ===== src/Examples/Data.antt =====
-- The deployment, job and clocks that the examples use.
use pbvex.Base.{ℕ, suc, ◌<◌, none, some, [], ◌∷◌, refl, arith, true, false}
use pbvex.Sql.{no_fault, count_rows}
use pbvex.Deploy.Manifest.{mutation, visible_internal, FunctionDescriptor, DeploymentManifest}
use pbvex.Deploy.Repo.{Deployment, Store, job_count}
use pbvex.Deploy.Repo.Pins.{Keyed}
use pbvex.Scheduler.Env.{Env, EnvLaws}
use pbvex.Scheduler.Job.{Job, Payload, pending, running, null_json, null_metadata}
use pbvex.Scheduler.Lifecycle.Pinned.{Sound}

abbrev pub send : FunctionDescriptor
send = record { name = 7; type = mutation; visibility = visible_internal; module_path = 3 }

abbrev pub manifest : DeploymentManifest
manifest = record { functions = send ∷ []; config = none; namespace_for_module = λ path. none }

abbrev pub live : Deployment
live = record {
  id = 11;
  deployment_id = 1;
  active = true;
  pin_count = 1;
  created = 1;
  bundle_hash = 5;
  manifest = some manifest;
}

-- Two inactive deployments that no job refers to.
abbrev pub old : Deployment
old = record live { id = 12; deployment_id = 2; active = false; pin_count = 0; created = 2 }

abbrev pub older : Deployment
older = record live { id = 13; deployment_id = 3; active = false; pin_count = 0; created = 0 }

abbrev pub payload : Payload
payload = record {
  deployment_id = 1;
  function_name = 7;
  bundle_hash = 5;
  args = null_json;
  owner_namespace = 1;
  target_namespace = 1;
}

abbrev pub waiting : Job
waiting = record {
  id = 21;
  deployment_id = 1;
  status = pending;
  payload = some payload;
  scheduled_at = 10;
  started = 0;
  finished = 0;
  attempts = 0;
  lease = 0;
  lease_expires_at = 0;
  result = null_json;
  error = [];
  metadata = null_metadata;
  created = 5;
  updated = 5;
}

-- The job while a worker holds it under the token 90, with a lease that has run out at 30.
abbrev pub held_job : Job
held_job = record waiting {
  status = running;
  lease = 90;
  lease_expires_at = 30;
  attempts = 1;
  started = 12;
}

abbrev pub one_job : Store
one_job = record { deployments = live ∷ old ∷ older ∷ []; jobs = waiting ∷ [] }

abbrev pub one_held : Store
one_held = record { deployments = live ∷ old ∷ older ∷ []; jobs = held_job ∷ [] }

-- A call at an instant, with the UUID that it draws; a DateTime is the instant plus one.
abbrev pub at_time : ℕ → ℕ → Env
at_time t uuid = record { now = t; date_time = suc; uuid = uuid; fault = no_fault }

pub at_time-EnvLaws : (t uuid : ℕ) → 0 < uuid → EnvLaws (at_time t uuid)
at_time-EnvLaws t uuid h = record {
  stamped = λ k. omega arith;
  ordered = λ a b h. omega (arith, h);
  named = h;
}

pub tables-Keyed : Keyed (live ∷ old ∷ older ∷ [])
tables-Keyed = record { by_id = ground arith; by_deployment = ground arith }

pub one_job-Sound : Sound one_job
unfolding count_rows job_count
one_job-Sound = record {
  ids = ground arith;
  keyed = tables-Keyed;
  balanced = (refl, (refl, (refl, tt)));
  supported = (omega arith, tt);
}
