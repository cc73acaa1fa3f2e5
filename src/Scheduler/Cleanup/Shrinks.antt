-- ===== src/Scheduler/Cleanup/Shrinks.antt =====
-- Cleanup only removes rows.
use pbvex.Base.{
  ℕ, ◌≡◌, ◌==◌, ◌-◌, ◌⊎◌, Bool, true, false, some, List, [], ◌∷◌, negsuc, Result, ok, err, All,
  Option-cases, Bool-cases, inl, inr, arith,
}
use pbvex.Sql.{delete_rows}
use pbvex.Sql.Rows.{All-delete_rows}
use pbvex.Deploy.Repo.{
  Deployment, Store, RepoError, deployment_not_found, pin_underflow, bad_manifest, database, pin,
}
use pbvex.Scheduler.Duration.{le_i64}
use pbvex.Scheduler.Config.{Config}
use pbvex.Scheduler.Env.{Env}
use pbvex.Scheduler.Job.{Job}
use pbvex.Scheduler.Cleanup.{Cleaning, clean_one, clean_all, expired_batch, cleanup_old, delete_job}

abbrev pub batch_of : Config → Env → Store → List Job
batch_of c env s = expired_batch c (env.date_time (env.now - c.job_history_retention)) s.jobs

-- A cleanup changes nothing, or runs its whole loop.
pub cleanup_old-cases :
    (c : Config) (env : Env) (w : Cleaning) (s : Store)
    → ((cleanup_old c env w s).0 ≡ s)
      ⊎ ((s' : Store) × (clean_all w (batch_of c env s) s ≡ some s')
          × ((cleanup_old c env w s).0 ≡ s'))
unfolding cleanup_old
cleanup_old-cases c env w s = elim (Option-cases (clean_all w (batch_of c env s) s)) [
  | inl stuck ↦ inl (ground arith)
  | inr (s', all) ↦ elim (Bool-cases w.commits) [
    | inr fails ↦ inl (ground arith)
    | inl kept ↦ elim (Bool-cases (le_i64 c.job_history_retention 0)) [
      | inl off ↦ inl (ground arith)
      | inr on ↦ elim (Bool-cases w.selected) [
        | inr fails ↦ inl (ground arith)
        | inl fine ↦ inr (s', all, ground arith)
      ]
    ]
  ]
]

-- A property of single rows survives.
module _ (P : Job → Type 0) (w : Cleaning) where
  delete_job-All :
      (b : Bool) (id : ℕ) (s : Store) {s' : Store}
      → delete_job b id s ≡ some s'
      → All P s.jobs
      → All P s'.jobs
  unfolding delete_job
  delete_job-All true id s {s'} e h =
      let same : s'.jobs ≡ delete_rows (λ j. j.id == id) s.jobs = ground arith in
      rw same (All-delete_rows P _ s.jobs h)
  delete_job-All false id s e h = cc

  clean_one-All :
      (r : Job) (pinned : Result RepoError (List Deployment)) (s : Store) {s' : Store}
      → clean_one w r pinned s ≡ some s'
      → All P s.jobs
      → All P s'.jobs
  unfolding clean_one
  clean_one-All r (ok t) s e h = delete_job-All _ r.id (record s { deployments = t }) e h
  clean_one-All r (err deployment_not_found) s e h = delete_job-All _ r.id s e h
  clean_one-All r (err pin_underflow) s {s'} e h =
      let same : s'.jobs ≡ s.jobs = ground arith in rw same h
  clean_one-All r (err bad_manifest) s e h = cc
  clean_one-All r (err database) s e h = cc

  clean_all-All :
      (batch : List Job) (s : Store) {s' : Store}
      → clean_all w batch s ≡ some s'
      → All P s.jobs
      → All P s'.jobs
  unfolding clean_all
  clean_all-All [] s {s'} e h = let same : s'.jobs ≡ s.jobs = ground arith in rw same h
  clean_all-All (r ∷ rest) s e h =
      elim (Option-cases (
        clean_one w r
          (pin (w.queried r.id) (w.pin_fault r.id) r.deployment_id (negsuc 0) s.deployments) s)) [
            | inl stuck ↦ absurd (ground arith)
            | inr (s₁, one) ↦
                clean_all-All rest s₁ (rw (one, clean_all) at e) (clean_one-All r _ s one h)
          ]

  pub cleanup_old-All :
      (c : Config) (env : Env) (s : Store) → All P s.jobs → All P (cleanup_old c env w s).0.jobs
  cleanup_old-All c env s h = elim (cleanup_old-cases c env w s) [
    | inl same ↦ rw same h
    | inr (s', all, e) ↦ rw e (clean_all-All _ s all h)
  ]
