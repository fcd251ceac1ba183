-- ===== src/Audit.antt =====
-- The audit trail of internal/service/audit.
pub mod Merkle
pub mod Signer
