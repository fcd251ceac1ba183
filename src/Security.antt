-- ===== src/Security.antt =====
-- internal/service/security.
pub mod KeyManager
