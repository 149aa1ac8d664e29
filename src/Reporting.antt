-- ===== src/Reporting.antt =====
-- src/polymarket_agent/reporting: what the agent reports on its trades.
pub mod Tax
