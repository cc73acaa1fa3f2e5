-- ===== src/Scheduler/Polling.antt =====
-- backend/internal/scheduler/worker.go: tick and claim, the poll for due jobs. A slot of the
-- semaphore frees up when another run ends, which is outside: `acquires` says for each job
-- whether the worker gets a slot before its context ends.
pub mod Started
use pbvex.Base.{
  ℕ, ◌==◌, leb, ltb, Bool, true, false, not, ◌&&◌, ◌||◌, List, [], ◌∷◌, take, if◌then◌else◌,
}
use pbvex.Sql.{order_by, select_rows}
use pbvex.Scheduler.Config.{Config}
use pbvex.Scheduler.Env.{Env}
use pbvex.Scheduler.Job.{Job, is_pending, is_running}
use pbvex.Scheduler.Worker.{Claim, claim_error, not_claimed, claimed, claim_one}

-- (status = 'pending' AND scheduledAt <= {:now}) OR (status = 'running' AND leaseExpiresAt <= {:now})
unfoldable pub due : ℕ → Job → Bool
due now j =
    (is_pending j.status && leb j.scheduled_at now)
    || (is_running j.status && leb j.lease_expires_at now)

-- ORDER BY scheduledAt ASC, created ASC.
unfoldable pub earlier_first : Job → Job → Bool
earlier_first a b =
    ltb a.scheduled_at b.scheduled_at
    || (a.scheduled_at == b.scheduled_at && leb a.created b.created)

unfoldable pub due_batch : Config → ℕ → List Job → List Job
due_batch c now table = take c.claim_batch (order_by earlier_first (select_rows (due now) table))

-- What one poll takes from outside: whether the context lives and the database is open, whether
-- the query succeeds, the instant, the slots, and for each job the call of claimOne and what
-- others do to the table before it.
pub record Poll : Type 0 where
  pub ready : Bool
  pub queried : Bool
  pub now : ℕ
  pub date_time : ℕ → ℕ
  pub acquires : ℕ → Bool
  pub envs : ℕ → Env
  pub meddle : ℕ → List Job → List Job

-- go w.runJob(record), for a record that was claimed; otherwise the slot is given back.
unfoldable pub started_with : Claim → List Job → List Job
started_with claim_error rest = rest
started_with not_claimed rest = rest
started_with (claimed r) rest = r ∷ rest

-- The loop over the records: the table, and the records whose runs start. All calls of claimOne
-- get the instant of the poll.
unfoldable pub claim_all : Config → Poll → List Job → List Job → List Job × List Job
unfolding started_with
claim_all c w [] t = (t, [])
claim_all c w (r ∷ rest) t =
    let env = record (w.envs r.id) { now = w.now; date_time = w.date_time } in
    let (t', reply) = claim_one c env r (w.meddle r.id t) in
    let (u, started) = claim_all c w rest t' in
    if w.acquires r.id then (u, started_with reply started) else (t, [])

-- tick and claim.
unfoldable pub claim_due : Config → Poll → List Job → List Job × List Job
unfolding claim_all
claim_due c w t =
    if w.ready && w.queried then claim_all c w (due_batch c (w.date_time w.now) t) t else (t, [])
