-- ===== src/Inventory.antt =====
-- The inventory service, services/inventory: events.go and ops.go.
pub mod Balance
pub mod Ops
pub mod Reserving
pub mod Once
pub mod Growth
pub mod EventStream
mod Examples
