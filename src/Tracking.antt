-- ===== src/Tracking.antt =====
-- src/polymarket_agent/tracking: the records of trades, and their comparison with the executor's orders.
pub mod Trades
pub mod Tally
pub mod Streaks
pub mod Metrics
pub mod Reconciler
