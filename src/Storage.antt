-- ===== src/Storage.antt =====
-- The stores of internal/adapter/storage that are kept in memory or in Redis.
pub mod Budget
pub mod BudgetStore
pub mod Provider
pub mod Traces
pub mod RedisBudget
