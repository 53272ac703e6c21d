-- ===== src/Execution/Service/State.antt =====
-- The state of `ExecutionService` (backend/execution/service.py), what it is set up with, and the
-- effects of its methods: they change the state and may raise, and what was written stays written.
use theta_plus.Base.{ℕ, Bool, Option, String, List, ◌∷◌, take}
use theta_plus.Base.Dict.{Dict}
use theta_plus.Base.Raises.{Raises}
use theta_plus.Base.Effects.{M, modify}
use theta_plus.Config.{AppConfig}
use theta_plus.Execution.Models.{
  Reason, OrderRequest, OrderRecord, InstrumentRef, BrokerOrderAck, BrokerOrderState,
  BrokerPosition, ReconciliationReport,
}
use theta_plus.Execution.Risk.{RiskState}

-- The document that `_persist` writes.
pub record Snapshot (F : Type 0) : Type 0 where
  pub schema : ℕ
  pub namespace : String
  pub orders : Dict (OrderRecord F)
  pub risk : RiskState F
  pub risk_day : Option ℕ
  pub kill_switch : Bool

-- One row of the execution log: the event, the order and the reason of a block.
pub record LogEntry : Type 0 where
  pub event : String
  pub client_order_id : String
  pub block_reason : Option Reason

-- A call of `adapter.submit_order`, with the journal as it stood then.
pub record Sent (F : Type 0) : Type 0 where
  pub order : OrderRequest F
  pub journal : List (Snapshot F)

-- The world `W` is what the broker and the disk depend on. The journal has its newest entry first.
-- `sent` only records the calls of the adapter, newest first: no method reads it.
pub record State (F W : Type 0) : Type 0 where
  pub orders : Dict (OrderRecord F)
  pub risk_state : RiskState F
  pub risk_day : Option ℕ
  pub kill_switch : Bool
  pub report : ReconciliationReport
  pub last_block_reason : Option Reason
  pub log : List LogEntry
  pub journal : List (Snapshot F)
  pub world : W
  pub sent : List (Sent F)

-- The configuration, the operator's environment, and the code that is not the service's: the
-- adapter, the journal, and the hash function. `write` stands for all of a save: `model_dump`,
-- `json.dumps` with `allow_nan=False`, which raises for a NaN, and the database.
pub record Setting (F W : Type 0) : Type 0 where
  pub config : AppConfig F
  pub instruments : List InstrumentRef
  pub env_live_enabled : Bool  -- LIVE_EXECUTION_ENABLED
  pub env_live_armed : Bool  -- LIVE_EXECUTION_ARMED
  pub adapter_configured : Bool
  pub adapter_is_dhan : Bool
  pub journal_durable : Bool
  pub namespace : String
  pub digest : String → String  -- the first 20 hex digits of SHA-256
  pub submit_order : OrderRequest F → W → Raises BrokerOrderAck × W
  pub get_order : String → W → Raises (BrokerOrderState F) × W
  pub get_order_by_correlation : String → W → Raises (Option (BrokerOrderState F)) × W
  pub get_positions : W → Raises (List BrokerPosition) × W
  pub write : Snapshot F → W → Raises (Unit {0}) × W

module _ {F W : Type 0} where
  -- A call of something outside, which sees and changes the world alone.
  abbrev pub outside : {A : Type 0} → (W → Raises A × W) → M (State F W) A
  outside call s = let (r, w) = call s.world in (r, record s { world = w })

  -- `deque(maxlen=500)`: the newest entries, newest first.
  unfoldable pub log_event : String → String → Option Reason → M (State F W) (Unit {0})
  log_event event coid reason = modify (λ s. record s {
    log =
        take 500 (record { event = event; client_order_id = coid; block_reason = reason } ∷ s.log);
  })
