-- ===== src/Scheduler/Lifecycle/Fencing.antt =====
-- Lease tokens fence stale attempts: an attempt whose token is no longer in its row never writes
-- to the jobs table again.
use pbvex.Base.{
  ℕ, ◌≡◌, refl, ◌∙◌, ◌≢◌, ◌<◌, Bool, true, false, none, some, List, inl, inr, arith, Bool-cases,
  ltb,
}
use pbvex.Sql.{Fault, no_fault, execute_fault, rows_fault, exec_update}
use pbvex.Sql.Rows.{Fails, exec_update_none, update_rows_none, count_rows_none}
use pbvex.Sql.Unique.{update_rows-Fails}
use pbvex.Deploy.Repo.{Store}
use pbvex.Scheduler.Duration.{le_i64}
use pbvex.Scheduler.Config.{Config}
use pbvex.Scheduler.Env.{Env, EnvLaws}
use pbvex.Scheduler.Failure.{GoError}
use pbvex.Scheduler.Job.{Job, Payload, holds}
use pbvex.Scheduler.Edges.{Edge, stay, claim, renew, yield, settle, cancel, requeue}
use pbvex.Scheduler.Worker
use pbvex.Scheduler.Worker.{
  Encoded, encoded, refused, Claim, claimed, not_claimed, claim_error, claimable, take_lease,
  claim_one, fail, complete, retry, defer_admission, release, handle_error,
}
use pbvex.Scheduler.Worker.Claiming.{DistinctIds, claim_one-Taken, claimed-Fails}
use pbvex.Scheduler.Cancel.{cancelable, mark_canceled, cancel_write}
use pbvex.Scheduler.Cancel.Outcome.{cancelable-id, written}
use pbvex.Scheduler.Schedule.{new_job}
use pbvex.Scheduler.Lifecycle.{Reach}
use pbvex.Scheduler.Lifecycle.Valid.{Reach-All}

-- No row lets the attempt with this id and token write.
abbrev pub NoHolder : ℕ → ℕ → List Job → Type 0
NoHolder id lease = Fails (holds id lease)

-- Whatever the attempt tries, and whatever the database does, the table stays as it is, and the
-- heartbeat reports the loss.
pub record IsFenced (c : Config) (r : Job) (t : List Job) : Type 0 where
  pub completes : (env : Env) (v : Encoded) → complete env r v t ≡ t
  pub fails : (env : Env) (e : GoError) → fail env r e t ≡ t
  pub retries : (jitter : ℕ → ℕ) (env : Env) (later : ℕ) → retry c jitter env later r t ≡ t
  pub defers : (env : Env) → defer_admission c env r t ≡ t
  pub releases : (env : Env) → release env r t ≡ t
  pub handles :
      (jitter : ℕ → ℕ) (env : Env) (later : ℕ) (stopping : Bool) (e : GoError)
      → handle_error c jitter env later stopping r e t ≡ t
  pub renews : (env : Env) → Worker.renew c env r.id r.lease t ≡ (t, false)

module _ (c : Config) (r : Job) (t : List Job) (h : NoHolder r.id r.lease t) where
  fail_none : (env : Env) (e : GoError) → fail env r e t ≡ t
  unfolding fail
  fail_none env e = exec_update_none env.fault _ _ t h

  complete_none : (env : Env) (v : Encoded) → complete env r v t ≡ t
  unfolding complete
  complete_none env (refused e) = fail_none env e
  complete_none env (encoded json) = exec_update_none env.fault _ _ t h

  retry_none : (jitter : ℕ → ℕ) (env : Env) (later : ℕ) → retry c jitter env later r t ≡ t
  unfolding retry
  retry_none jitter env later = elim (Bool-cases (le_i64 c.max_attempts r.attempts)) [
    | inl e ↦ rw e (fail_none env _)
    | inr e ↦ rw e (exec_update_none env.fault _ _ t h)
  ]

  defer_none : (env : Env) → defer_admission c env r t ≡ t
  unfolding defer_admission
  defer_none env = exec_update_none env.fault _ _ t h

  release_none : (env : Env) → release env r t ≡ t
  unfolding release
  release_none env = exec_update_none env.fault _ _ t h

  handle_none :
      (jitter : ℕ → ℕ) (env : Env) (later : ℕ) (stopping : Bool) (e : GoError)
      → handle_error c jitter env later stopping r e t ≡ t
  unfolding handle_error
  handle_none jitter env later stopping e =
      ground (arith, release_none env, fail_none env e, retry_none jitter env later)

  renew_fault :
      (f : Fault) (g : Job → Job)
      → let (t', affected) = exec_update f (holds r.id r.lease) g t in
        ◌≡◌ {A = List Job × Bool} (t', elim affected [ none ↦ false | some n ↦ ltb 0 n ]) (t, false)
  unfolding exec_update
  renew_fault no_fault g = rw (update_rows_none _ g t h, count_rows_none _ t h) refl
  renew_fault execute_fault g = refl
  renew_fault rows_fault g = rw (update_rows_none _ g t h) refl

  renew_none : (env : Env) → Worker.renew c env r.id r.lease t ≡ (t, false)
  unfolding Worker.renew
  renew_none env = renew_fault env.fault _

  pub NoHolder-IsFenced : IsFenced c r t
  NoHolder-IsFenced = record {
    completes = complete_none;
    fails = fail_none;
    retries = retry_none;
    defers = defer_none;
    releases = release_none;
    handles = handle_none;
    renews = renew_none;
  }

-- Environments whose UUIDs differ from a token that was drawn before.
abbrev pub DrawsNot : ℕ → Env → Type 0
DrawsNot lease env = EnvLaws env × (env.uuid ≢ lease)

-- A change that draws another token gives nobody this one.
Edge-holds :
    (id lease : ℕ) (u : ℕ) (j k : Job)
    → u ≢ lease
    → Edge u j k
    → holds id lease j ≡ false
    → holds id lease k ≡ false
Edge-holds id lease u j k ne (stay e) h = ground arith
Edge-holds id lease u j k ne (claim o held l a f kept) h = ground arith
Edge-holds id lease u j k ne (renew s s' l x st a f kept) h = ground arith
Edge-holds id lease u j k ne (yield s p i f kept) h = ground arith
Edge-holds id lease u j k ne (settle s e i f kept) h = ground arith
Edge-holds id lease u j k ne (cancel o s i f kept) h = ground arith
Edge-holds id lease u j k ne (requeue s p i f a kept) h = ground arith

new_job-holds :
    (id lease : ℕ) (env : Env) (new deployment at : ℕ) (p : Payload)
    → holds id lease (new_job env new deployment p at) ≡ false
unfolding new_job
new_job-holds id lease env new deployment at p = ground arith

pub Reach-NoHolder :
    (c : Config) (id lease : ℕ) {s u : Store}
    → Reach c (DrawsNot lease) s u
    → NoHolder id lease s.jobs
    → NoHolder id lease u.jobs
Reach-NoHolder c id lease =
    Reach-All (λ j. holds id lease j ≡ false) c (DrawsNot lease) (λ env ok. ok.0)
      (λ env j k ok. Edge-holds id lease env.uuid j k ok.1) (new_job-holds id lease)

taken-holds :
    (c : Config) (env : Env) (r : Job) (id lease : ℕ) (j : Job)
    → lease ≢ env.uuid
    → holds id lease (take_lease c env j) ≡ false
unfolding take_lease
taken-holds c env r id lease j ne = ground arith

holds-id : (id lease : ℕ) (j : Job) → holds id lease j ≡ true → j.id ≡ id
holds-id id lease j h = ground arith

canceled-holds : (env : Env) (id lease : ℕ) (j : Job) → holds id lease (mark_canceled env j) ≡ false
unfolding mark_canceled
canceled-holds env id lease j = ground arith

-- In a table with unique record ids, an attempt is fenced off for good once another worker has
-- claimed its job under another token: in every later state of every run whose UUIDs do not
-- repeat the old token, none of its writes changes the table and its heartbeat reports that the
-- lease is lost.
pub claim_one-fences :
    (c : Config) (env : Env) (r stale : Job) (s : Store) {u : Store} {t : List Job} {mine : Job}
    → DistinctIds s.jobs
    → claim_one c env r s.jobs ≡ (t, claimed mine)
    → stale.id ≡ r.id
    → stale.lease ≢ env.uuid
    → Reach c (DrawsNot stale.lease) (record s { jobs = t }) u
    → IsFenced c stale u.jobs
claim_one-fences c env r stale s {u} {t} ids won same other run = NoHolder-IsFenced c stale u.jobs (
    Reach-NoHolder c stale.id stale.lease run (
      claimed-Fails c env r s.jobs ids (claim_one-Taken c env r s.jobs won)
        (holds stale.id stale.lease) (λ j h. taken-holds c env r stale.id stale.lease j other)
        (λ j h. holds-id stale.id stale.lease j h ∙ same)))

-- In a table with unique record ids, a cancellation that has changed a row fences the attempts
-- of its job in the same way: in every later state of every run whose UUIDs do not repeat their
-- token, an attempt that was running cannot record a result.
pub cancel_write-fences :
    (c : Config) (env : Env) (r stale : Job) (s : Store) {u : Store} {t : List Job} {n : ℕ}
    → DistinctIds s.jobs
    → cancel_write env r s.jobs ≡ (t, some n)
    → 0 < n
    → stale.id ≡ r.id
    → Reach c (DrawsNot stale.lease) (record s { jobs = t }) u
    → IsFenced c stale u.jobs
cancel_write-fences c env r stale s {u} {t} {n} ids done pos same run =
    NoHolder-IsFenced c stale u.jobs (
      Reach-NoHolder c stale.id stale.lease run (
        rw (written env r s.jobs done).0 (
          update_rows-Fails (λ j. j.id) (cancelable r.id r.lease) r.id (cancelable-id r)
            (holds stale.id stale.lease) (mark_canceled env) s.jobs
            (λ j h. canceled-holds env stale.id stale.lease j)
            (λ j h. holds-id stale.id stale.lease j h ∙ same) ids
            (omega (arith, (written env r s.jobs done).1)))))
