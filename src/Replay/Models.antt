-- ===== src/Replay/Models.antt =====
-- backend/models/replay_models.py: one replayed evaluation, and the outcome of a setup without the
-- constant version of the method.
use theta_plus.Base.{ℕ, Bool, Option, String, List}
use theta_plus.Base.Int.{ℤ}
use theta_plus.Clock.{Timestamp}
use theta_plus.Market.{HealthCode, TrendState}
use theta_plus.Engine.Models.{Side, Decision, SignalState, RuleResult}

pub record ReplaySignal (F : Type 0) : Type 0 where
  pub signal_id : String
  pub snapshot_id : String
  pub timestamp : Timestamp
  pub instrument : String
  pub expiry : String
  pub spot : Option F
  pub vwap : Option F
  pub total_pcr : Option F
  pub pcr_trend : TrendState
  pub put_oi : Option ℤ
  pub call_oi : Option ℤ
  pub ce_score : ℤ
  pub pe_score : ℤ
  pub ce_max_score : ℤ
  pub pe_max_score : ℤ
  pub decision : Decision
  pub state : SignalState
  pub reason : String
  pub atm : Option ℤ
  pub above_vwap : Bool
  pub below_vwap : Bool
  pub data_health : HealthCode
  pub strategy_version : String
  pub feature_engine_version : String
  pub config_version : String
  pub rule_results : List RuleResult

-- The OUTCOME_* constants.
pub data OutcomeState : Type 0 where
  target stoploss invalidated expired ambiguous no_data : OutcomeState

-- The three times to an exit, in microseconds.
pub record SignalOutcome (F : Type 0) : Type 0 where
  pub signal_id : String
  pub timestamp : Timestamp
  pub side : Side
  pub strike : Option ℤ
  pub entry : Option F
  pub target : Option F
  pub stoploss : Option F
  pub exit_price : Option F
  pub exit_state : OutcomeState
  pub exit_timestamp : Option Timestamp
  pub mfe : Option F
  pub mae : Option F
  pub gross_points : Option F
  pub observations_used : ℕ
  pub time_to_target : Option ℤ
  pub time_to_stop : Option ℤ
  pub time_to_invalidation : Option ℤ
  pub note : String
