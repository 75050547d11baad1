-- ===== src/Es.antt =====
-- The event store, pkg/es: es.go.
pub mod Store
pub mod Starts
pub mod Opening
pub mod Growing
pub mod Keeping
pub mod Appending
mod Examples
