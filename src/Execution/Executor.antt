-- ===== src/Execution/Executor.antt =====
-- src/polymarket_agent/execution/executor.py. The executor's orders are a list in the order of insertion,
-- read and replaced by their identifiers; times are microseconds since the epoch.
pub mod Orders
pub mod Guard
pub mod Brackets
pub mod Place
pub mod Cancel
pub mod Status
pub mod Store
pub mod Moves
pub mod Sound
pub mod Siblings
pub mod Trigger
pub mod Traces
pub mod Refine
pub mod Runs
pub mod Halted
pub mod Placements
pub mod Dedup
pub mod Levels
pub mod Lost
pub mod Closing
mod Tests
pub mod Children
pub mod Reconcile
