-- ===== src/Scheduler/Worker/Claiming.antt =====
-- What a claim that succeeds has done, and that a second one of the same job fails.
use pbvex.Base.{ℕ, ◌≡◌, ◌∙◌, ◌≢◌, ◌<◌, Bool, true, false, List, arith}
use pbvex.Sql.{exec_update, count_rows, update_rows}
use pbvex.Sql.Rows.{Fails, update_rows_none, count_rows_none}
use pbvex.Sql.Unique.{Distinct, update_rows-Fails}
use pbvex.Scheduler.Duration.{add_time}
use pbvex.Scheduler.Config.{Config}
use pbvex.Scheduler.Env.{Env, EnvLaws}
use pbvex.Scheduler.Job.{Job}
use pbvex.Scheduler.Worker.{claimed, claimable, take_lease, claim_one}

abbrev pub DistinctIds : List Job → Type 0
DistinctIds = Distinct (λ j. j.id)

claimable-id : (r : Job) (now : ℕ) (j : Job) → claimable r now j ≡ true → j.id ≡ r.id
unfolding claimable
claimable-id r now j h = ground arith

-- The rows that a successful claim leaves.
pub record Taken (c : Config) (env : Env) (r : Job) (t t' : List Job) : Type 0 where
  pub after : t' ≡ update_rows (claimable r (env.date_time env.now)) (take_lease c env) t
  pub one : 0 < count_rows (claimable r (env.date_time env.now)) t

pub claim_one-Taken :
    (c : Config) (env : Env) (r : Job) (t : List Job) {t' : List Job} {r' : Job}
    → claim_one c env r t ≡ (t', claimed r')
    → Taken c env r t t'
unfolding claim_one exec_update
claim_one-Taken c env r t {t'} h = record { after = ground arith; one = ground arith }

module _ (c : Config) (env : Env) (r : Job) (t : List Job) {t' : List Job} (ids : DistinctIds t)
    (taken : Taken c env r t t') where
  -- A test that the row written by the claim fails, and that only this job's row can pass.
  pub claimed-Fails :
      (q : Job → Bool)
      → ((j : Job) → claimable r (env.date_time env.now) j ≡ true → q (take_lease c env j) ≡ false)
      → ((j : Job) → q j ≡ true → j.id ≡ r.id)
      → Fails q t'
  claimed-Fails q written keyed = rw taken.after (
      update_rows-Fails (λ j. j.id) (claimable r (env.date_time env.now)) r.id
        (claimable-id r (env.date_time env.now)) q (take_lease c env) t written keyed ids taken.one)

-- The instants at which the second claim is made come before the end of the first one's lease.
abbrev pub WithinLease : Config → Env → Env → Type 0
WithinLease c env env' = env'.date_time env'.now < env.date_time (add_time env.now c.lease_duration)

second-fails :
    (c : Config) (env env' : Env) (r r' : Job) (now : ℕ) (j : Job)
    → 0 < env.uuid
    → WithinLease c env env'
    → claimable r now j ≡ true
    → claimable r' (env'.date_time env'.now) (take_lease c env j) ≡ false
unfolding claimable take_lease
second-fails c env env' r r' now j named within h = ground arith

-- A claim whose WHERE passes no row takes nothing and writes nothing.
not_claimed_lem :
    (c : Config) (env : Env) (r : Job) (t : List Job)
    → Fails (claimable r (env.date_time env.now)) t
    → ((r' : Job) → (claim_one c env r t).1 ≢ claimed r') × ((claim_one c env r t).0 ≡ t)
unfolding claim_one exec_update
not_claimed_lem c env r t h =
    let same = update_rows_none (claimable r (env.date_time env.now)) (take_lease c env) t h in
    let none_counted = count_rows_none (claimable r (env.date_time env.now)) t h in
    ((λ r' e. ground arith), ground arith)

-- At most one worker holds a job: in a table with unique record ids, after a claim that
-- succeeded, every other claim of the same job, from whatever record a worker has read and
-- whatever the database does, takes nothing and leaves the table alone, as long as the first
-- lease has not run out.
pub claim_one-excludes :
    (c : Config) (env env' : Env) (r r' : Job) (t : List Job) {t' : List Job} {mine : Job}
    → EnvLaws env
    → DistinctIds t
    → claim_one c env r t ≡ (t', claimed mine)
    → r'.id ≡ r.id
    → WithinLease c env env'
    → ((theirs : Job) → (claim_one c env' r' t').1 ≢ claimed theirs)
      × ((claim_one c env' r' t').0 ≡ t')
claim_one-excludes c env env' r r' t {t'} laws ids won same within = not_claimed_lem c env' r' t' (
    claimed-Fails c env r t ids (claim_one-Taken c env r t won)
      (claimable r' (env'.date_time env'.now))
      (λ j h. second-fails c env env' r r' (env.date_time env.now) j laws.named within h)
      (λ j h. claimable-id r' (env'.date_time env'.now) j h ∙ same))
