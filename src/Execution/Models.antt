-- ===== src/Execution/Models.antt =====
-- backend/models/execution_models.py, and the broker's answers of backend/execution/adapter.py. The
-- texts that only explain (details, error messages) and the clock times of records are left out.
use theta_plus.Base.{ℕ, Bool, Option, none, some, String, List, if◌then◌else◌, str_eq}
use theta_plus.Base.Int.{ℤ}
use theta_plus.Config.{OrderType, ProductType, Validity, Mode}

-- The internal lifecycle, ORDER_*.
pub data OrderStatus : Type 0 where
  requested submitted acknowledged partially_filled filled rejected cancelled unknown : OrderStatus

-- BROKER_STATUS_MAP
unfoldable pub broker_status_map : String → Option OrderStatus
broker_status_map s =
    if str_eq s "TRANSIT"
    then some submitted
    else (if str_eq s "PENDING"
        then some acknowledged
        else (if str_eq s "PART_TRADED"
            then some partially_filled
            else (if str_eq s "TRADED"
                then some filled
                else (if str_eq s "REJECTED"
                    then some rejected
                    else (if str_eq s "CANCELLED"
                        then some cancelled
                        else (if str_eq s "EXPIRED" then some cancelled else none))))))

-- APPROVED and the BLOCK_* constants.
pub data Reason : Type 0 where
  approved mode_not_live live_disabled not_armed kill_switch system_disabled : Reason
  invalid_signal signal_state stale_data session cooldown duplicate : Reason
  max_trades max_positions quantity_limit max_daily_loss slippage price_invalid : Reason
  security_id instrument reconciliation unreconciled_position risk_disabled : Reason

-- RECON_*
pub data ReconState : Type 0 where
  agreed pending mismatch : ReconState

pub data Transaction : Type 0 where
  buy sell : Transaction

pub record InstrumentRef : Type 0 where
  pub underlying : String
  pub exchange_segment : String
  pub security_id : String
  pub expiry : String
  pub strike : Option ℤ
  pub option_type : String
  pub lot_size : ℤ
  pub tradable : Bool

pub record OrderRequest (F : Type 0) : Type 0 where
  pub client_order_id : String
  pub signal_id : String
  pub exchange_segment : String
  pub security_id : String
  pub transaction_type : Transaction
  pub order_type : OrderType
  pub product_type : ProductType
  pub validity : Validity
  pub quantity : ℕ
  pub price : F
  pub reference_price : F

pub record OrderRecord (F : Type 0) : Type 0 where
  pub client_order_id : String
  pub signal_id : String
  pub broker_order_id : Option String
  pub broker_status : Option String
  pub broker_confirmed : Bool
  pub status : OrderStatus
  pub security_id : String
  pub exchange_segment : String
  pub transaction_type : Transaction
  pub product_type : ProductType
  pub order_type : OrderType
  pub requested_quantity : ℤ
  pub filled_quantity : ℤ
  pub remaining_quantity : ℤ
  pub requested_price : F
  pub average_fill_price : Option F
  pub error_code : String

abbrev pub Checks : Type 0
Checks = List (String × Bool)

pub record RiskDecision : Type 0 where
  pub allowed : Bool
  pub reason : Reason
  pub checks : Checks

pub record ExecutionDecision : Type 0 where
  pub allowed : Bool
  pub reason : Reason
  pub checks : Checks
  pub client_order_id : String
  pub signal_id : String
  pub mode : Mode

pub record BrokerPosition : Type 0 where
  pub security_id : String
  pub exchange_segment : String
  pub product_type : String
  pub net_qty : ℤ

pub record ReconciliationReport : Type 0 where
  pub state : ReconState
  pub internal_open_positions : ℕ
  pub broker_open_positions : ℕ
  pub unexpected_broker_positions : List BrokerPosition
  pub blocks_execution : Bool

-- adapter.py: the acknowledgement of a submission, and the state that the broker reports.
pub record BrokerOrderAck : Type 0 where
  pub broker_order_id : String
  pub broker_status : String

pub record BrokerOrderState (F : Type 0) : Type 0 where
  pub broker_order_id : String
  pub broker_status : String
  pub filled_quantity : ℤ
  pub remaining_quantity : ℤ
  pub average_traded_price : Option F
  pub error_code : String
