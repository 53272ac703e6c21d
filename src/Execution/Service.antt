-- ===== src/Execution/Service.antt =====
-- backend/execution/service.py: `ExecutionService`. `State` holds its state and effects, `Orders` the
-- order lifecycle, `Submit` and `Entry` the one path to the adapter, `Startup` restoring and reconciling.
pub mod State
pub mod Orders
pub mod Submit
pub mod Entry
pub mod Followup
pub mod Soundness
pub mod Submission
pub mod Reported
pub mod Startup
pub mod Restart
pub mod Agreement
pub mod Runs
pub mod Sending
pub mod Attempt
