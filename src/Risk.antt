-- ===== src/Risk.antt =====
-- src/polymarket_agent/risk: the limits on what the agent may trade.
pub mod Alerts
pub mod Drawdown
pub mod Sizer
pub mod KillSwitch
