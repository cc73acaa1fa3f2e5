-- ===== src/Scheduler/Config/Normal.antt =====
-- What NewService makes of any configuration.
use pbvex.Base.{ℕ, ◌^◌, ◌<◌, arith, if◌then◌else◌}
use pbvex.Scheduler.Duration.{le_i64, Positive}
use pbvex.Scheduler.Config.{Config, new_service}

-- A configuration that the worker and the cleanup loop can run with.
pub record IsNormal (c : Config) : Type 0 where
  pub poll : Positive c.poll_interval
  pub concurrency : Positive c.max_concurrency
  pub lease : Positive c.lease_duration
  pub heartbeat : c.renew_interval < c.lease_duration
  pub execution : Positive c.max_execution_duration
  pub batch : Positive c.claim_batch
  pub initial_delay : Positive c.retry_initial_delay
  pub max_delay : Positive c.retry_max_delay
  pub attempts : Positive c.max_attempts
  pub cleanup : Positive c.cleanup_interval
  pub history_batch : Positive c.cleanup_batch
  pub retention : Positive c.job_history_retention

-- Every field of the configuration is the bit pattern of an int64.
pub record IsPattern (c : Config) : Type 0 where
  pub poll : c.poll_interval < 2 ^ 64
  pub concurrency : c.max_concurrency < 2 ^ 64
  pub lease : c.lease_duration < 2 ^ 64
  pub renew : c.renew_interval < 2 ^ 64
  pub execution : c.max_execution_duration < 2 ^ 64
  pub batch : c.claim_batch < 2 ^ 64
  pub initial_delay : c.retry_initial_delay < 2 ^ 64
  pub max_delay : c.retry_max_delay < 2 ^ 64
  pub attempts : c.max_attempts < 2 ^ 64
  pub cleanup : c.cleanup_interval < 2 ^ 64
  pub history_batch : c.cleanup_batch < 2 ^ 64
  pub retention : c.job_history_retention < 2 ^ 64

-- A value that is not positive is replaced, and a positive one is kept.
or_default_Positive : (x d : ℕ) → x < 2 ^ 64 → Positive d → Positive (if le_i64 x 0 then d else x)
or_default_Positive x d h p = ground arith

-- Whatever int64 values the caller asks for, NewService makes every field of the configuration but
-- the heartbeat positive, and the heartbeat strictly shorter than the lease.
pub new_service-IsNormal : (c : Config) → IsPattern c → IsNormal (new_service c)
unfolding new_service
new_service-IsNormal c h = record {
  poll = or_default_Positive c.poll_interval _ h.poll (omega arith);
  concurrency = or_default_Positive c.max_concurrency _ h.concurrency (omega arith);
  lease = or_default_Positive c.lease_duration _ h.lease (omega arith);
  heartbeat = ground (arith, h.renew, h.lease);
  execution = or_default_Positive c.max_execution_duration _ h.execution (omega arith);
  batch = or_default_Positive c.claim_batch _ h.batch (omega arith);
  initial_delay = or_default_Positive c.retry_initial_delay _ h.initial_delay (omega arith);
  max_delay = or_default_Positive c.retry_max_delay _ h.max_delay (omega arith);
  attempts = or_default_Positive c.max_attempts _ h.attempts (omega arith);
  cleanup = or_default_Positive c.cleanup_interval _ h.cleanup (omega arith);
  history_batch = or_default_Positive c.cleanup_batch _ h.history_batch (omega arith);
  retention = or_default_Positive c.job_history_retention _ h.retention (omega arith);
}
