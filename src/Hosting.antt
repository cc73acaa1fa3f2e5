-- ===== src/Hosting.antt =====
-- The host's side of the service (backend/hosting): the protocol's checks and the reference services.
pub mod Token
pub mod Protocol
pub mod Reference
pub mod StorageQuota
