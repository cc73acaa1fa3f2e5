-- ===== src/Scheduler/Backoff.antt =====
-- backend/internal/scheduler/service.go: retryBackoff, in int64 nanoseconds that wrap. The loop
-- variable i counts up to attempts - 1, so attempts - 1 rounds are left at the start.
pub mod Bounds
use pbvex.Base.{ℕ, zero, suc, ◌+◌, ◌-◌, ◌*◌, Bool, if◌then◌else◌}
use pbvex.Scheduler.Duration.{wrap, lt_i64}
use pbvex.Scheduler.Config.{Config}

-- base *= 2; if base > max { base = max }
unfoldable pub double_capped : ℕ → ℕ → ℕ
double_capped max base =
    let doubled = wrap (base * 2) in if lt_i64 max doubled then max else doubled

-- for i := 0; i < attempts-1 && base < max; i++ { ... }
unfoldable pub backoff_loop : ℕ → ℕ → ℕ → ℕ
backoff_loop zero max base = base
backoff_loop (suc rounds) max base =
    let next = backoff_loop rounds max (double_capped max base) in
    if lt_i64 base max then next else base

unfoldable pub retry_backoff : Config → (ℕ → ℕ) → ℕ → ℕ
retry_backoff c jitter attempts =
    let base = backoff_loop (attempts - 1) c.retry_max_delay c.retry_initial_delay in
    let delay = wrap (base + jitter base) in
    if lt_i64 c.retry_max_delay delay then c.retry_max_delay else delay
