-- ===== src/Infra.antt =====
-- src/polymarket_agent/infra: the guards around calls of other services.
pub mod CircuitBreaker
pub mod Retry
pub mod RateLimiter
pub mod Backpressure
pub mod PidLock
