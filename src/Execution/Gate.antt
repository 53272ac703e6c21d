-- ===== src/Execution/Gate.antt =====
-- backend/execution/gate.py: `can_execute_order`, the one function that authorises a submission.
pub mod Laws
use theta_plus.Base.{
  ℕ, ◌≤◌, Bool, true, false, not, ◌&&◌, ◌||◌, Option, none, some, String, List, [], ◌∷◌, ◌++◌,
  if◌then◌else◌, ltb, leb, truthy, any, elem, contains_text, is_some,
}
use theta_plus.Base.Float.{Float, Format}
use theta_plus.Clock.{Timestamp, date_of}
use theta_plus.Config.{AppConfig, Mode, live}
use theta_plus.Market.{HealthCode, MarketFeatures}
use theta_plus.Engine.Models.{SignalState, watch, entry_candidate, active, is_setup, SignalDecision}
use theta_plus.Engine.Signal.{time_filter_reason}
use theta_plus.Execution.Models.{
  Reason, approved, mode_not_live, live_disabled, not_armed, kill_switch, system_disabled,
  invalid_signal, signal_state, stale_data, session, cooldown, duplicate, security_id, instrument,
  reconciliation, unreconciled_position, ReconState, agreed, mismatch, InstrumentRef, Checks,
  ExecutionDecision, BrokerPosition, ReconciliationReport,
}
use theta_plus.Execution.Instruments.{validate_instrument}
use theta_plus.Execution.Risk
use theta_plus.Execution.Risk.{RiskState}

pub record ExecutionFlags : Type 0 where
  pub mode : Mode
  pub live_execution_enabled : Bool
  pub live_execution_armed : Bool
  pub kill_switch_on : Bool

-- The arguments of `can_execute_order`. The risk engine holds the same configuration.
pub record Request (F : Type 0) : Type 0 where
  pub config : AppConfig F
  pub flags : ExecutionFlags
  pub decision : Option (SignalDecision F)
  pub features : Option (MarketFeatures F)
  pub instrument_ref : Option InstrumentRef
  pub quantity : ℕ
  pub reference_price : Option F
  pub market_price : Option F
  pub risk_state : RiskState F
  pub report : ReconciliationReport
  pub existing_client_order_ids : List String
  pub client_order_id : String
  pub signal_id : String
  pub signal_cooldown_until : Option Timestamp
  pub now : Timestamp

abbrev pub is_live : Mode → Bool
is_live live = true
is_live _ = false

abbrev pub is_healthy : HealthCode → Bool
is_healthy HealthCode.healthy = true
is_healthy _ = false

-- `state in ENTRY_STATES`
abbrev pub is_entry_state : SignalState → Bool
is_entry_state entry_candidate = true
is_entry_state active = true
is_entry_state watch = true
is_entry_state _ = false

abbrev pub is_agreed : ReconState → Bool
is_agreed agreed = true
is_agreed _ = false

abbrev pub is_mismatch : ReconState → Bool
is_mismatch mismatch = true
is_mismatch _ = false

abbrev nonempty : List BrokerPosition → Bool
nonempty [] = false
nonempty (_ ∷ _) = true

abbrev later_than : Option Timestamp → Timestamp → Bool
later_than none now = false
later_than (some until) now = ltb now until

abbrev date_reached : Option ℕ → Timestamp → Bool
date_reached none now = false
date_reached (some expiry) now = leb (date_of now) expiry

abbrev has_security_id : Option InstrumentRef → Bool
has_security_id none = false
has_security_id (some ref) = truthy ref.security_id

module _ {F : Type 0} where
  abbrev suppressed : Option (SignalDecision F) → Bool
  suppressed none = false
  suppressed (some d) = any (contains_text "SIGNAL_COOLDOWN") d.reasons

  abbrev not_setup : Option (SignalDecision F) → Bool
  not_setup none = false
  not_setup (some d) = not (is_setup d.decision)

  -- A cooldown that suppressed this evaluation, or that is still running beside another decision.
  unfoldable pub cooldown_active : Option (SignalDecision F) → Option Timestamp → Timestamp → Bool
  cooldown_active decision until now =
      suppressed decision || not_setup decision && later_than until now

  abbrev pub entry_setup : Option (SignalDecision F) → Bool
  entry_setup none = false
  entry_setup (some d) = is_setup d.decision

  abbrev pub state_permits : Option (SignalDecision F) → Bool
  state_permits none = false
  state_permits (some d) = is_entry_state d.state

  abbrev pub health_ok : Option (SignalDecision F) → Bool
  health_ok none = false
  health_ok (some d) = is_healthy d.data_health

-- `bool(expiry) and date.fromisoformat(expiry) >= now.date()`, false on a ValueError
unfoldable pub expiry_valid : {F : Type 0} → Format F → Option InstrumentRef → Timestamp → Bool
expiry_valid fm none now = false
expiry_valid fm (some ref) now = truthy ref.expiry && date_reached (fm.fromisoformat ref.expiry) now

module _ {F : Type 0} ⦃fl : Float F⦄ ⦃fm : Format F⦄ where
  abbrev pub blocked : Request F → Reason → Checks → ExecutionDecision
  blocked r reason checks = record {
    allowed = false;
    reason = reason;
    checks = checks;
    client_order_id = r.client_order_id;
    signal_id = r.signal_id;
    mode = r.flags.mode;
  }

  -- `checks.append((name, ok))`, and the early return where the check fails.
  unfoldable pub demand :
      Request F → String → Bool → Reason → Checks → (Checks → ExecutionDecision) → ExecutionDecision
  demand r name passed reason checks rest =
      if passed
      then rest (checks ++ (name, true) ∷ [])
      else blocked r reason (checks ++ (name, false) ∷ [])

  -- The end of the chain: reconciliation.
  unfoldable pub check_reconciliation : Request F → Checks → ExecutionDecision
  check_reconciliation r checks =
      if is_mismatch r.report.state && nonempty r.report.unexpected_broker_positions
      then blocked r unreconciled_position (checks ++ ("reconciliation", false) ∷ [])
      else demand r "reconciliation" (is_agreed r.report.state && not r.report.blocks_execution)
          reconciliation checks
          (λ checks'. record {
            allowed = true;
            reason = approved;
            checks = checks';
            client_order_id = r.client_order_id;
            signal_id = r.signal_id;
            mode = r.flags.mode;
          })

  -- The instrument, its price, and the risk limits.
  unfoldable pub check_order : Request F → Checks → ExecutionDecision
  check_order r checks =
      demand r "security_id_available" (has_security_id r.instrument_ref) security_id checks (λ c1.
        if not (expiry_valid fm r.instrument_ref r.now)
        then blocked r instrument c1
        else demand r "instrument_validated"
            (validate_instrument r.instrument_ref r.quantity r.market_price) instrument c1
            (λ c2.
              let risk =
                Risk.evaluate r.config r.risk_state r.quantity r.reference_price r.market_price in
              let c3 = c2 ++ risk.checks in
              if not risk.allowed then blocked r risk.reason c3 else check_reconciliation r c3))

  -- The signal: cooldown, decision, state, data, session, duplicates.
  unfoldable pub check_signal : Request F → Checks → ExecutionDecision
  check_signal r checks =
      demand r "cooldown_clear" (not (cooldown_active r.decision r.signal_cooldown_until r.now))
        cooldown checks
        (λ c1. demand r "signal_is_entry_setup" (entry_setup r.decision) invalid_signal c1 (λ c2.
          demand r "signal_state_permits_entry" (state_permits r.decision) signal_state c2 (λ c3.
            demand r "data_health_ok" (health_ok r.decision && is_some r.features) stale_data c3
              (λ c4.
                demand r "trading_session" (not (is_some (time_filter_reason r.now r.config)))
                  session c4
                  (λ c5.
                    demand r "no_duplicate_order"
                      (not (elem r.client_order_id r.existing_client_order_ids)) duplicate c5
                      (check_order r))))))

  unfoldable pub can_execute_order : Request F → ExecutionDecision
  can_execute_order r = demand r "mode_live" (is_live r.flags.mode) mode_not_live [] (λ c1.
      demand r "live_execution_enabled" r.flags.live_execution_enabled live_disabled c1 (λ c2.
        demand r "live_execution_armed" r.flags.live_execution_armed not_armed c2 (λ c3.
          demand r "kill_switch_off" (not r.flags.kill_switch_on) kill_switch c3 (λ c4.
            demand r "system_enabled" r.config.enabled system_disabled c4 (check_signal r)))))
