-- ===== src/Dlock.antt =====
-- The lease locks of pkg/dlock/dlock.go.
pub mod Replica
pub mod Manager
pub mod Lease
pub mod Fencing
mod Examples
