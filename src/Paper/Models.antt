-- ===== src/Paper/Models.antt =====
-- backend/models/paper_models.py. The constant label of a record is left out.
use theta_plus.Base.{ℕ, Bool, true, false, Option, String}
use theta_plus.Base.Int.{ℤ}
use theta_plus.Clock.{Timestamp}
use theta_plus.Config.{Mode}
use theta_plus.Engine.Models.{Side}

-- The PAPER_* constants.
pub data PaperState : Type 0 where
  opened target stoploss invalidated expired no_data ambiguous : PaperState

pub record PaperPosition (F : Type 0) : Type 0 where
  pub paper_position_id : String
  pub signal_id : String
  pub timestamp : Timestamp
  pub underlying : String
  pub option_type : Side
  pub strike : ℤ
  pub entry_price : Option F
  pub current_price : Option F
  pub target_price : Option F
  pub stoploss_price : Option F
  pub quantity : ℕ
  pub state : PaperState
  pub exit_price : Option F
  pub exit_time : Option Timestamp
  pub exit_reason : String
  pub gross_points : Option F
  pub gross_pnl : Option F
  pub assumed_slippage_points : F
  pub costs : F
  pub net_pnl : Option F
  pub data_origin : String
  pub data_origin_label : String
  pub mode : Mode
  pub strategy_version : String
  pub feature_version : String

abbrev pub same_state : PaperState → PaperState → Bool
same_state opened opened = true
same_state target target = true
same_state stoploss stoploss = true
same_state invalidated invalidated = true
same_state expired expired = true
same_state no_data no_data = true
same_state ambiguous ambiguous = true
same_state _ _ = false

-- `state in CLOSED_STATES`
abbrev pub is_closed : PaperState → Bool
is_closed opened = false
is_closed no_data = false
is_closed _ = true

-- `position.is_open`
abbrev pub is_open : {F : Type 0} → PaperPosition F → Bool
is_open position = same_state position.state opened

pub record PaperSummary (F : Type 0) : Type 0 where
  pub mode : Mode
  pub paper_trading_enabled : Bool
  pub data_origin : String
  pub data_origin_label : String
  pub total_positions : ℕ
  pub open_positions : ℕ
  pub target : ℕ
  pub stoploss : ℕ
  pub invalidated : ℕ
  pub expired : ℕ
  pub ambiguous : ℕ
  pub no_data : ℕ
  pub gross_points : F
  pub gross_pnl : F
  pub costs : F
  pub net_pnl : F
  pub quantity : ℕ
  pub target_points : ℕ
  pub stoploss_points : ℕ
  pub max_open_positions : ℕ
  pub cost_note : String
  pub open_position : Option (PaperPosition F)
