-- ===== src/Hashring.antt =====
-- Consistent hashing, pkg/hashring/hashring.go.
pub mod Ring
pub mod Invariant
pub mod Moves
pub mod Leaving
pub mod Owners
pub mod Replicas
mod Examples
