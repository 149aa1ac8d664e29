-- ===== src/Execution.antt =====
-- src/polymarket_agent/execution: the lifecycle of orders and the ways of placing them.
pub mod StateMachine
pub mod Batch
pub mod TrailingStop
pub mod Twap
pub mod Paper
pub mod Executor
pub mod Arbitrage
pub mod Slippage
