-- ===== src/Scheduler/Env.antt =====
-- What one call of the scheduler takes from outside: the clock (clock.Now), PocketBase's
-- ParseDateTime, a new text of uuid.NewString, and the database's choice for the statement.
use pbvex.Base.{ℕ, ◌≤◌, ◌<◌}
use pbvex.Sql.{Fault}

pub record Env : Type 0 where
  pub now : ℕ
  pub date_time : ℕ → ℕ
  pub uuid : ℕ
  pub fault : Fault

-- What the scheduler relies on: a DateTime of an instant is no empty text and keeps the order of
-- instants, and a UUID is no empty text.
pub record EnvLaws (env : Env) : Type 0 where
  pub stamped : (t : ℕ) → 0 < env.date_time t
  pub ordered : (t u : ℕ) → t ≤ u → env.date_time t ≤ env.date_time u
  pub named : 0 < env.uuid
