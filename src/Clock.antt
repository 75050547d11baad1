-- ===== src/Clock.antt =====
-- The logical clocks of pkg/clock/clock.go.
pub mod Clocks
pub mod Causality
mod Examples
