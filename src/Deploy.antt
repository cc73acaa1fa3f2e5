-- ===== src/Deploy.antt =====
-- The deployment side of the program (backend/internal/deploy), as far as the job scheduler and
-- the trimming of old deployments reach.
pub mod Manifest
pub mod Repo
