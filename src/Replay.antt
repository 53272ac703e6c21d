-- ===== src/Replay.antt =====
-- backend/replay: the outcome of a signal on the option prices that came after it.
pub mod Observation
pub mod Feed
pub mod Metrics
pub mod Models
pub mod Run
pub mod Session
pub mod Outcome
pub mod Build
pub mod Verdict
pub mod Excursions
pub mod Lookahead
pub mod Order
pub mod Counts
pub mod Accounting
pub mod Days
pub mod Parity
pub mod Totality
pub mod Setups
