-- ===== src/Governance.antt =====
-- The governance services of internal/service/governance, and the constraints of internal/domain.
pub mod Constraints
pub mod Evaluator
pub mod Validation
pub mod Sanitizer
pub mod Privacy
pub mod Truncation
pub mod Deprecation
pub mod Interceptor
