-- ===== src/Infra/Retry.antt =====
-- src/polymarket_agent/infra/retry.py: its own circuit breaker, and the loop of `with_retry`.
pub mod Breaker
pub mod Count
pub mod Loop
mod Tests
