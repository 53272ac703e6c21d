-- ===== src/Engine.antt =====
-- backend/engines: features to decision. `Rules` is rule_engine.py, `Score` score_engine.py,
-- `StateMachine` state_machine.py, `Memory` signal_memory.py and `Signal` signal_engine.py, over the
-- records of backend/models/signal_models.py in `Models`.
pub mod Models
pub mod Rules
pub mod Score
pub mod StateMachine
pub mod Memory
pub mod Health
pub mod Signal
pub mod Session
