-- ===== src/Domain.antt =====
-- The types that the parts of the program hand to each other, of internal/domain.
pub mod Value
pub mod Trace
pub mod RiskReport
