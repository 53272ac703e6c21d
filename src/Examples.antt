-- ===== src/Examples.antt =====
-- A concrete arithmetic, configuration, market, broker and disk, and the theorems applied to them.
pub mod Values
pub mod States
mod Engine
mod Execution
mod Paper
mod Features
mod Pipeline
mod Replay
mod Collector
mod Mapping
