-- ===== src/Common.antt =====
-- The small pure parts of Api/src/common.
pub mod Uuid
pub mod UuidOrder
pub mod Envelope
pub mod NationalId
pub mod Canonical
pub mod AuditChain
