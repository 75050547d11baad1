-- ===== src/Crdt.antt =====
-- The counters of pkg/crdt: gcounter.go and pncounter.go.
pub mod Counters
pub mod Convergence
mod Examples
