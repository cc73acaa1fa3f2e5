-- ===== src/Realtime.antt =====
-- Realtime query subscriptions (backend/internal/realtime).
pub mod Broadcaster
pub mod Session
