-- ===== src/Router.antt =====
-- internal/service/router.
pub mod ModelRouter
