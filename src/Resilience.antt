-- ===== src/Resilience.antt =====
-- The circuit breaker and the bulkhead, pkg/resilience/breaker.go and bulkhead.go.
pub mod Breaker
pub mod Bulkhead
mod Examples
