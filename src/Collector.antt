-- ===== src/Collector.antt =====
-- personal-trading-phase1/app: the policy and the rate gate of the collector.
pub mod RateGate
pub mod Policy
pub mod Progress
pub mod Windows
pub mod Window
