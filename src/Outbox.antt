-- ===== src/Outbox.antt =====
-- The outbox of services/outbox: the relay, outbox.go, and its consumer, consume.go.
pub mod Consumer
pub mod Once
pub mod Relay
pub mod Delivery
pub mod CatchUp
mod Examples
