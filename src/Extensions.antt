-- ===== src/Extensions.antt =====
-- internal/service/extensions.
pub mod Registry
