-- ===== src/Engine/Models.antt =====
-- backend/models/signal_models.py, and the states of backend/engines/state_machine.py.
use theta_plus.Base.{Bool, true, false, Option, String, List}
use theta_plus.Base.Int.{ℤ}
use theta_plus.Market.{HealthCode, TrendState}
use theta_plus.Clock.{Timestamp}

pub data SignalState : Type 0 where
  wait watch entry_candidate active invalidated target stoploss expired : SignalState

pub SignalState-discrete : Discrete SignalState
SignalState-discrete = hlevel

pub data Side : Type 0 where
  ce pe : Side

abbrev pub side_text : Side → String
side_text ce = "CE"
side_text pe = "PE"

abbrev pub same_side : Side → Side → Bool
same_side ce ce = true
same_side pe pe = true
same_side _ _ = false

-- The DECISION_* constants.
pub data Decision : Type 0 where
  ce_setup pe_setup waiting ce_invalidated pe_invalidated : Decision

abbrev pub decision_text : Decision → String
decision_text ce_setup = "CE_SETUP"
decision_text pe_setup = "PE_SETUP"
decision_text waiting = "WAIT"
decision_text ce_invalidated = "CE_INVALIDATED"
decision_text pe_invalidated = "PE_INVALIDATED"

-- `decision in ("CE_SETUP", "PE_SETUP")`
abbrev pub is_setup : Decision → Bool
is_setup ce_setup = true
is_setup pe_setup = true
is_setup _ = false

-- `decision in ("CE_INVALIDATED", "PE_INVALIDATED")`
abbrev pub is_invalidation : Decision → Bool
is_invalidation ce_invalidated = true
is_invalidation pe_invalidated = true
is_invalidation _ = false

-- `"CE" if decision.startswith("CE") else "PE"`
abbrev pub side_of : Decision → Side
side_of ce_setup = ce
side_of ce_invalidated = ce
side_of _ = pe

-- f"{side}_SETUP"
abbrev pub setup : Side → Decision
setup ce = ce_setup
setup pe = pe_setup

-- f"{side}_INVALIDATED"
abbrev pub invalidation : Side → Decision
invalidation ce = ce_invalidated
invalidation pe = pe_invalidated

pub record RuleResult : Type 0 where
  pub rule_id : String
  pub side : Side
  pub passed : Bool
  pub available : Bool
  pub score_awarded : ℤ
  pub max_score : ℤ
  pub observed_value : String
  pub reason : String

pub record SignalDecision (F : Type 0) : Type 0 where
  pub timestamp : Timestamp
  pub symbol : String
  pub decision : Decision
  pub state : SignalState
  pub ce_score : ℤ
  pub pe_score : ℤ
  pub ce_max_score : ℤ
  pub pe_max_score : ℤ
  pub qualifying_side : Option Side
  pub reasons : List String
  pub ce_rules : List RuleResult
  pub pe_rules : List RuleResult
  pub atm : ℤ
  pub spot : F
  pub vwap : Option F
  pub pcr : Option F
  pub pcr_trend : Option TrendState
  pub strategy_version : String
  pub feature_engine_version : String
  pub config_version : String
  pub data_health : HealthCode
  pub cooldown_until : Option Timestamp
