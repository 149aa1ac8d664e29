-- ===== src/Events.antt =====
-- src/polymarket_agent/events: the events that the parts of the agent send each other.
pub mod Bus
