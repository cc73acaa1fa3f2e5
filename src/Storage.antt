-- ===== src/Storage.antt =====
-- The storage service (backend/internal/storage).
pub mod NativeQuota
pub mod Quota
