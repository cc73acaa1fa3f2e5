-- ===== src/Schema.antt =====
-- Document schemas (backend/internal/schema): wire values and the order keys of documents.
pub mod Bytes
pub mod Value
pub mod Canonical
pub mod Key
pub mod Order
pub mod Indexable
