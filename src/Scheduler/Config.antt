-- ===== src/Scheduler/Config.antt =====
-- backend/internal/scheduler/service.go: Config, DefaultConfig and the part of NewService that
-- replaces values that are not positive. The jitter and the clock are functions that the caller
-- supplies.
pub mod Normal
use pbvex.Base.{ℕ, ◌+◌, ◌*◌, ◌/◌, ◌≤◌, ◌<◌, ◌≡◌, Option, none, some, Bool, arith, if◌then◌else◌}
use pbvex.Scheduler.Duration.{le_i64, millisecond, second, minute, hour}

pub record Config : Type 0 where
  pub poll_interval : ℕ
  pub max_concurrency : ℕ
  pub lease_duration : ℕ
  pub renew_interval : ℕ
  pub max_execution_duration : ℕ
  pub claim_batch : ℕ
  pub retry_initial_delay : ℕ
  pub retry_max_delay : ℕ
  pub max_attempts : ℕ
  pub cleanup_interval : ℕ
  pub cleanup_batch : ℕ
  pub job_history_retention : ℕ

-- The jitter and the clock of DefaultConfig are in `Env`.
abbrev pub default_config : Config
default_config = record {
  poll_interval = 2 * second;
  max_concurrency = 5;
  lease_duration = 2 * minute;
  renew_interval = 2 * minute / 2;
  max_execution_duration = 2 * minute;
  claim_batch = 10;
  retry_initial_delay = 1 * second;
  retry_max_delay = 1 * minute;
  max_attempts = 5;
  cleanup_interval = 1 * hour;
  cleanup_batch = 1000;
  job_history_retention = 7 * 24 * hour;
}

-- `if x <= 0 { x = default }`.
abbrev or_default : ℕ → ℕ → ℕ
or_default x d = if le_i64 x 0 then d else x

-- The heartbeat must renew before the lease expires. Both values are positive here.
abbrev fit_renew : ℕ → ℕ → ℕ
fit_renew renew lease =
    if le_i64 lease renew
    then (let half = lease / 2 in if le_i64 half 0 then 0 else half)
    else renew

unfoldable pub new_service : Config → Config
new_service c =
    let lease = or_default c.lease_duration default_config.lease_duration in
    record {
      poll_interval = or_default c.poll_interval default_config.poll_interval;
      max_concurrency = or_default c.max_concurrency default_config.max_concurrency;
      lease_duration = lease;
      renew_interval = fit_renew (or_default c.renew_interval default_config.renew_interval) lease;
      max_execution_duration =
          or_default c.max_execution_duration default_config.max_execution_duration;
      claim_batch = or_default c.claim_batch default_config.claim_batch;
      retry_initial_delay = or_default c.retry_initial_delay default_config.retry_initial_delay;
      retry_max_delay = or_default c.retry_max_delay default_config.retry_max_delay;
      max_attempts = or_default c.max_attempts default_config.max_attempts;
      cleanup_interval = or_default c.cleanup_interval default_config.cleanup_interval;
      cleanup_batch = or_default c.cleanup_batch default_config.cleanup_batch;
      job_history_retention =
          or_default c.job_history_retention default_config.job_history_retention;
    }
