-- ===== src/Scheduler.antt =====
-- The durable job scheduler (backend/internal/scheduler).
pub mod Duration
pub mod Config
pub mod Backoff
pub mod Env
pub mod Job
pub mod Failure
pub mod Worker
pub mod Service
pub mod Cancel
pub mod Schedule
pub mod Cleanup
pub mod Edges
pub mod Lifecycle
pub mod Run
pub mod Cron
pub mod Listing
pub mod Polling
