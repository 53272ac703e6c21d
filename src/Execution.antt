-- ===== src/Execution.antt =====
-- backend/execution: the gate, the risk limits, the instruments, the reconciliation and the service
-- that alone may submit an order, over the records of backend/models/execution_models.py.
pub mod Models
pub mod Risk
pub mod Instruments
pub mod Gate
pub mod Positions
pub mod Reconciliation
pub mod Service
