-- ===== src/Examples/Jobs.antt =====
-- One job, its workers and its requests.
use pbvex.Base.{◌≡◌, ◌≢◌, none, List, refl, arith, All}
use pbvex.Sql.{exec_update, update_rows, count_rows, find_row}
use pbvex.Deploy.Repo.{Store}
use pbvex.Scheduler.Config.{default_config}
use pbvex.Scheduler.Env.{EnvLaws}
use pbvex.Scheduler.Worker
use pbvex.Scheduler.Cancel
use pbvex.Scheduler.Service
use pbvex.Scheduler.Job.{Job, null_json}
use pbvex.Scheduler.Edges.{IsValid, Moves}
use pbvex.Scheduler.Worker.{claim_one, claimed, encoded, take_lease}
use pbvex.Scheduler.Worker.Claiming.{claim_one-excludes}
use pbvex.Scheduler.Cancel.{cancel, cancel_write, mark_canceled}
use pbvex.Scheduler.Cancel.Outcome.{cancel-IsCanceled, IsCanceled}
use pbvex.Scheduler.Lifecycle.{Reach, here, next, claims, completes, writes}
use pbvex.Scheduler.Lifecycle.Books.{Reach-Sound, Reach-resolves, IsPinned}
use pbvex.Scheduler.Lifecycle.Fencing.{claim_one-fences, cancel_write-fences, IsFenced}
use pbvex.Scheduler.Lifecycle.Pinned.{Sound}
use pbvex.Scheduler.Lifecycle.Valid.{Reach-IsValid, Update-Moves, of_write}
use pbvex.Examples.Data.{
  waiting, held_job, one_job, one_held, at_time, at_time-EnvLaws, one_job-Sound,
}

-- The table after the worker with token 77 has claimed the waiting job at 20.
abbrev after_claim : List Job
after_claim = (claim_one default_config (at_time 20 77) waiting one_job.jobs).0

abbrev mine : Job
mine = take_lease default_config (at_time 20 77) waiting

-- The store after that worker has stored a result at 25.
abbrev after_run : Store
after_run = record (record one_job { jobs = after_claim }) {
  jobs = Worker.complete (at_time 25 78) mine (encoded null_json) after_claim;
}

run : Reach default_config EnvLaws one_job after_run
run =
    next (next here (at_time 20 77) (at_time-EnvLaws 20 77 (omega arith)) (writes (claims waiting)))
      (at_time 25 78) (at_time-EnvLaws 25 78 (omega arith))
      (writes (completes mine (encoded null_json)))

waiting-IsValid : IsValid waiting
waiting-IsValid = record {
  held = λ e. ground arith;
  idle = λ e. record { lease = refl; expiry = refl };
  unfinished = λ e. refl;
  ended = λ e. ground arith;
}

Reach-Sound_example : Sound after_run
Reach-Sound_example = Reach-Sound default_config run one_job-Sound

Reach-resolves_example : All (λ j. IsPinned after_run.deployments j.deployment_id) after_run.jobs
Reach-resolves_example = Reach-resolves default_config run one_job-Sound

Reach-IsValid_example : All IsValid after_run.jobs
Reach-IsValid_example = Reach-IsValid default_config run (waiting-IsValid, tt)

Update-Moves_example : Moves 77 one_job.jobs after_claim
Update-Moves_example =
    Update-Moves default_config (at_time 20 77) (at_time-EnvLaws 20 77 (omega arith)) one_job
      (of_write (claims waiting))

claim_one-excludes_example :
    ((theirs : Job)
      → (claim_one default_config (at_time 30 78) waiting after_claim).1 ≢ claimed theirs)
    × ((claim_one default_config (at_time 30 78) waiting after_claim).0 ≡ after_claim)
unfolding claim_one exec_update update_rows count_rows Worker.claimable take_lease
claim_one-excludes_example =
    claim_one-excludes default_config (at_time 20 77) (at_time 30 78) waiting waiting one_job.jobs
      (at_time-EnvLaws 20 77 (omega arith)) (tt, tt) refl refl (ground arith)

-- The worker with token 90 has lost its lease at 30, and another one claims the job at 40.
abbrev stolen : List Job
stolen = (claim_one default_config (at_time 40 77) held_job one_held.jobs).0

claim_one-fences_example : IsFenced default_config held_job stolen
unfolding claim_one exec_update update_rows count_rows Worker.claimable take_lease
claim_one-fences_example =
    claim_one-fences default_config (at_time 40 77) held_job held_job one_held (tt, tt) refl refl
      (ground arith) here

abbrev after_cancel : List Job
after_cancel = (cancel_write (at_time 20 1) held_job one_held.jobs).0

cancel_write-fences_example : IsFenced default_config held_job after_cancel
unfolding cancel_write exec_update update_rows count_rows Cancel.cancelable mark_canceled
cancel_write-fences_example =
    cancel_write-fences default_config (at_time 20 1) held_job held_job one_held (tt, tt) refl
      (ground arith) refl here

cancel-IsCanceled_example :
    IsCanceled 21 (cancel (λ k. at_time 20 1) (λ k u. u) none 21 one_held.jobs).0
unfolding cancel cancel_write exec_update update_rows count_rows find_row Cancel.cancelable
    mark_canceled Cancel.cancel_loop Service.owned_by
cancel-IsCanceled_example =
    cancel-IsCanceled (λ k. at_time 20 1) (λ k u. u) none 21 one_held.jobs (λ k u h. h) (tt, tt)
      refl
