-- ===== src/Intelligence.antt =====
-- src/polymarket_agent/intelligence.
pub mod Anomaly
