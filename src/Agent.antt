-- ===== src/Agent.antt =====
-- src/polymarket_agent/main.py, the agent's loop.
pub mod Payload
pub mod Cycle
