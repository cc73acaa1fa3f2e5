-- ===== src/Scheduler/Lifecycle/Expiry.antt =====
-- Cleanup keeps the pin counters equal to the numbers of jobs.
use pbvex.Base.{
  ℕ, ◌+◌, ◌-◌, ◌==◌, ◌≡◌, refl, ◌≢◌, inl, inr, Bool, true, false, ◌&&◌, some, List, [], ◌∷◌, negsuc,
  Result, ok, err, All, arith, Option-cases, if◌then◌else◌,
}
use pbvex.Sql.{Fault}
use pbvex.Sql.Rows.{
  All-zip, All-weaken, All-delete_rows, All-select_rows, All-order_by, All-take, All-of,
  count_rows-delete_rows, count_rows_none,
}
use pbvex.Sql.Unique.{
  Distinct-delete_rows, Distinct-select_rows, Distinct-order_by, Distinct-take, count_key-one,
}
use pbvex.Deploy.Repo.{
  Deployment, Store, RepoError, deployment_not_found, pin_underflow, bad_manifest, database,
  job_count, pin,
}
use pbvex.Deploy.Repo.Pins.{SameKeys-Keyed, pin-SameKeys, pin_down-All, pin_down-missing}
use pbvex.Scheduler.Config.{Config}
use pbvex.Scheduler.Env.{Env}
use pbvex.Scheduler.Job.{Job}
use pbvex.Scheduler.Worker.Claiming.{DistinctIds}
use pbvex.Scheduler.Cleanup.{
  Cleaning, delete_job, clean_one, clean_all, expired, expired_batch, cleanup_old,
}
use pbvex.Scheduler.Cleanup.Shrinks.{batch_of, cleanup_old-cases}
use pbvex.Scheduler.Lifecycle.Pinned.{
  Sound, IsBalanced, IsPresent, delete_id, job_count-delete_id, deployment_rows-SameKeys,
}

-- The records of the batch, each of them a row of the table, and no two the same.
pub record IsBatch (t batch : List Job) : Type 0 where
  pub present : All (IsPresent t) batch
  pub ids : DistinctIds batch

pub expired_batch-IsBatch :
    (c : Config) (cutoff : ℕ) (t : List Job) → DistinctIds t → IsBatch t (expired_batch c cutoff t)
unfolding expired_batch
expired_batch-IsBatch c cutoff t ids = record {
  present = All-take _ c.cleanup_batch _ (
      All-order_by _ _ _ (
        All-select_rows _ (expired cutoff) t
          (count_key-one (λ j. j.id) (λ j. j.deployment_id) t ids)));
  ids =
      Distinct-take (λ j. j.id) c.cleanup_batch _
        (Distinct-order_by (λ j. j.id) _ _
          (Distinct-select_rows (λ j. j.id) (expired cutoff) t ids));
}

delete_job-cases :
    (b : Bool) (id : ℕ) (s : Store) {s' : Store}
    → delete_job b id s ≡ some s'
    → s' ≡ record s { jobs = delete_id id s.jobs }
unfolding delete_job
delete_job-cases true id s h = ground arith
delete_job-cases false id s h = absurd (ground arith)

-- The three ends of a round that does not abort.
pub data Round (r : Job) (pinned : Result RepoError (List Deployment)) (s s' : Store) : Type 0 where
  returned :
      {t : List Deployment}
      → pinned ≡ ok t
      → s' ≡ record { deployments = t; jobs = delete_id r.id s.jobs }
      → Round r pinned s s'
  stale :
      pinned ≡ err deployment_not_found
      → s' ≡ record s { jobs = delete_id r.id s.jobs }
      → Round r pinned s s'
  skipped : s' ≡ s → Round r pinned s s'

clean_one-Round :
    (w : Cleaning) (r : Job) (pinned : Result RepoError (List Deployment)) (s : Store) {s' : Store}
    → clean_one w r pinned s ≡ some s'
    → Round r pinned s s'
unfolding clean_one
clean_one-Round w r (ok t) s h =
    returned refl (delete_job-cases _ r.id (record s { deployments = t }) h)
clean_one-Round w r (err deployment_not_found) s h = stale refl (delete_job-cases _ r.id s h)
clean_one-Round w r (err pin_underflow) s h = skipped (ground arith)
clean_one-Round w r (err bad_manifest) s h = absurd (ground arith)
clean_one-Round w r (err database) s h = absurd (ground arith)

module _ (s : Store) (r : Job) (v : Sound s) (here : IsPresent s.jobs r) where
  counted :
      (d : ℕ)
      → job_count d (delete_id r.id s.jobs) + (if r.deployment_id == d then 1 else 0)
        ≡ job_count d s.jobs
  counted d = job_count-delete_id d s.jobs r v.ids here

  Round-Sound :
      (queried : Bool) (fault : Fault) {s' : Store}
      → Round r (pin queried fault r.deployment_id (negsuc 0) s.deployments) s s'
      → Sound s'
  Round-Sound queried fault (skipped same) = rw same v
  Round-Sound queried fault (stale missing same) = rw same (record {
    ids = Distinct-delete_rows (λ j. j.id) _ s.jobs v.ids;
    keyed = v.keyed;
    balanced =
        All-weaken _ _ s.deployments (λ d both. let n = counted d.deployment_id in ground arith)
          (All-zip _ _ s.deployments v.balanced
            (pin_down-missing queried fault r.deployment_id 0 s.deployments missing));
    supported = All-delete_rows _ _ s.jobs v.supported;
  })
  Round-Sound queried fault (returned {t} done same) =
      let keys =
        pin-SameKeys queried fault r.deployment_id (negsuc 0) s.deployments (λ e. ground arith)
          done in
      rw same (record {
        ids = Distinct-delete_rows (λ j. j.id) _ s.jobs v.ids;
        keyed = SameKeys-Keyed s.deployments t keys v.keyed;
        balanced =
            pin_down-All s.deployments v.keyed (IsBalanced s.jobs)
              (IsBalanced (delete_id r.id s.jobs)) queried fault r.deployment_id 0 done
              (λ d e mine more. let n = counted d.deployment_id in ground arith)
              (λ d e other. let n = counted d.deployment_id in ground arith) v.balanced;
        supported =
            All-weaken _ _ _
              (λ k has. rw (deployment_rows-SameKeys k.deployment_id s.deployments t keys) has)
              (All-delete_rows _ _ s.jobs v.supported);
      })

-- Deleting one row leaves the others where they were.
IsPresent-delete_id :
    (t : List Job) (r q : Job) → q.id ≢ r.id → IsPresent t q → IsPresent (delete_id r.id t) q
IsPresent-delete_id t r q ne here =
    let split =
      count_rows-delete_rows (λ j. j.id == r.id)
        (λ (j : Job). j.deployment_id == q.deployment_id && j.id == q.id) t in
    let apart =
      count_rows_none
        (λ (j : Job). (j.deployment_id == q.deployment_id && j.id == q.id) && j.id == r.id) t
        (All-of _ t (λ j. ground arith)) in
    omega (arith, split, apart, here)

Round-IsPresent :
    (r : Job) (pinned : Result RepoError (List Deployment)) (s : Store) {s' : Store}
    (batch : List Job)
    → Round r pinned s s'
    → All (λ q. q.id ≢ r.id) batch
    → All (IsPresent s.jobs) batch
    → All (IsPresent s'.jobs) batch
Round-IsPresent r pinned s batch (returned done same) ne h = rw same (
    All-weaken _ _ batch (λ q both. IsPresent-delete_id s.jobs r q both.0 both.1)
      (All-zip _ _ batch ne h))
Round-IsPresent r pinned s batch (stale missing same) ne h = rw same (
    All-weaken _ _ batch (λ q both. IsPresent-delete_id s.jobs r q both.0 both.1)
      (All-zip _ _ batch ne h))
Round-IsPresent r pinned s batch (skipped same) ne h = rw same h

clean_all-Sound :
    (w : Cleaning) (batch : List Job) (s : Store) {s' : Store}
    → clean_all w batch s ≡ some s'
    → All (IsPresent s.jobs) batch
    → DistinctIds batch
    → Sound s
    → Sound s'
unfolding clean_all
clean_all-Sound w [] s {s'} h here ids v = let same : s' ≡ s = ground arith in rw same v
clean_all-Sound w (r ∷ rest) s h here ids v =
    let pinned = pin (w.queried r.id) (w.pin_fault r.id) r.deployment_id (negsuc 0) s.deployments in
    elim (Option-cases (clean_one w r pinned s)) [
      | inl stuck ↦ absurd (ground arith)
      | inr (s₁, one) ↦
          let round = clean_one-Round w r pinned s one in
          clean_all-Sound w rest s₁ (rw (one, clean_all) at h)
            (Round-IsPresent r pinned s rest round ids.0 here.1) ids.1
            (Round-Sound s r v here.0 (w.queried r.id) (w.pin_fault r.id) round)
    ]

pub cleanup_old-Sound :
    (c : Config) (env : Env) (w : Cleaning) (s : Store) → Sound s → Sound (cleanup_old c env w s).0
cleanup_old-Sound c env w s v = elim (cleanup_old-cases c env w s) [
  | inl same ↦ rw same v
  | inr (s', all, same) ↦
      let batch =
        expired_batch-IsBatch c (env.date_time (env.now - c.job_history_retention)) s.jobs v.ids in
      rw same (clean_all-Sound w (batch_of c env s) s all batch.present batch.ids v)
]
