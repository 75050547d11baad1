-- ===== src/Trade.antt =====
-- Trades between two players, services/trade: trade.go, steps.go and orchestrator.go.
pub mod Offers
pub mod Orchestrator
mod Examples
