-- ===== src/Scheduler/Worker/Edges.antt =====
-- Every write of a worker is a change of the diagram, row by row.
use pbvex.Base.{ℕ, ◌≡◌, refl, inl, inr, Bool, true, ◌||◌, List, arith, Bool-cases}
use pbvex.Sql.Rows.{Pointwise-exec_update}
use pbvex.Scheduler.Duration.{le_i64, add_time}
use pbvex.Scheduler.Config.{Config}
use pbvex.Scheduler.Env.{Env, EnvLaws}
use pbvex.Scheduler.Job.{Job, running, holds, is_running, is_pending}
use pbvex.Scheduler.Failure.{GoError}
use pbvex.Scheduler.Edges.{Edge, Moves, Moves-refl, stay, claim, renew, yield, settle}
use pbvex.Scheduler.Worker
use pbvex.Scheduler.Worker.{
  Encoded, encoded, refused, claimable, take_lease, claim_one, fail, complete, retry,
  defer_admission, release, handle_error,
}

module _ (env : Env) (laws : EnvLaws env) where
  stays : (j : Job) → Edge env.uuid j j
  stays j = stay refl

  take_lease-Edge :
      (c : Config) (r : Job) (now : ℕ) (j : Job)
      → claimable r now j ≡ true
      → Edge env.uuid j (take_lease c env j)
  unfolding claimable take_lease
  take_lease-Edge c r now j h =
      claim (ground arith)
        (ground (
          arith,
          laws.stamped env.now,
          laws.stamped (add_time env.now c.lease_duration),
          laws.named,
        ))
        refl refl refl (ground arith)

  pub claim_one-Moves :
      (c : Config) (r : Job) (t : List Job) → Moves env.uuid t (claim_one c env r t).0
  unfolding claim_one
  claim_one-Moves c r t = elim (Bool-cases (is_pending r.status || is_running r.status)) [
    | inl e ↦
        rw e (Pointwise-exec_update (Edge env.uuid) stays env.fault _ _ t (take_lease-Edge c r _))
    | inr e ↦ rw e (Moves-refl env.uuid t)
  ]

  held_running : (id lease : ℕ) (j : Job) → holds id lease j ≡ true → j.status ≡ running
  held_running id lease j h = ground arith

  pub renew-Moves :
      (c : Config) (id lease : ℕ) (t : List Job)
      → Moves env.uuid t (Worker.renew c env id lease t).0
  unfolding Worker.renew
  renew-Moves c id lease t = Pointwise-exec_update (Edge env.uuid) stays env.fault _ _ t λ j h.
      renew (held_running id lease j h) (held_running id lease j h) refl
        (laws.stamped (add_time env.now c.lease_duration)) refl refl refl (ground arith)

  pub fail-Moves : (r : Job) (e : GoError) (t : List Job) → Moves env.uuid t (fail env r e t)
  unfolding fail
  fail-Moves r e t = Pointwise-exec_update (Edge env.uuid) stays env.fault _ _ t λ j h.
      settle (held_running r.id r.lease j h) (inr refl) (ground arith) (laws.stamped env.now)
        (ground arith)

  pub complete-Moves :
      (r : Job) (v : Encoded) (t : List Job) → Moves env.uuid t (complete env r v t)
  unfolding complete
  complete-Moves r (refused e) t = fail-Moves r e t
  complete-Moves r (encoded json) t =
      Pointwise-exec_update (Edge env.uuid) stays env.fault _ _ t λ j h.
        settle (held_running r.id r.lease j h) (inl refl) (ground arith) (laws.stamped env.now)
          (ground arith)

  pub retry-Moves :
      (c : Config) (jitter : ℕ → ℕ) (later : ℕ) (r : Job) (t : List Job)
      → Moves env.uuid t (retry c jitter env later r t)
  unfolding retry
  retry-Moves c jitter later r t = elim (Bool-cases (le_i64 c.max_attempts r.attempts)) [
    | inl e ↦ rw e (fail-Moves r _ t)
    | inr e ↦ rw e (
        Pointwise-exec_update (Edge env.uuid) stays env.fault _ _ t
          λ j h. yield (held_running r.id r.lease j h) refl (ground arith) refl (ground arith))
  ]

  pub defer_admission-Moves :
      (c : Config) (r : Job) (t : List Job) → Moves env.uuid t (defer_admission c env r t)
  unfolding defer_admission
  defer_admission-Moves c r t =
      Pointwise-exec_update (Edge env.uuid) stays env.fault _ _ t
        λ j h. yield (held_running r.id r.lease j h) refl (ground arith) refl (ground arith)

  pub release-Moves : (r : Job) (t : List Job) → Moves env.uuid t (release env r t)
  unfolding release
  release-Moves r t =
      Pointwise-exec_update (Edge env.uuid) stays env.fault _ _ t
        λ j h. yield (held_running r.id r.lease j h) refl (ground arith) refl (ground arith)

  pub handle_error-Moves :
      (c : Config) (jitter : ℕ → ℕ) (later : ℕ) (stopping : Bool) (r : Job) (e : GoError)
      (t : List Job)
      → Moves env.uuid t (handle_error c jitter env later stopping r e t)
  unfolding handle_error
  handle_error-Moves c jitter later stopping r e t = grind (
    arith,
    Moves-refl env.uuid t,
    release-Moves r t,
    fail-Moves r e t,
    retry-Moves c jitter later r t,
  )
