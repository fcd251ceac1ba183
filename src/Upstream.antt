-- ===== src/Upstream.antt =====
-- The upstream clients of internal/adapter/upstream.
pub mod Breaker
pub mod Counting
pub mod FaultTolerant
pub mod Gobreaker
pub mod Sse
