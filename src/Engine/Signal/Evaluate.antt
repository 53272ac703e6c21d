-- ===== src/Engine/Signal/Evaluate.antt =====
-- backend/engines/signal_engine.py: `evaluate` and `evaluate_and_apply`.
use Prim.Native.String.{◌++◌}
use theta_plus.Base.{
  Bool, true, false, ◌&&◌, not, Option, none, some, String, List, [], ◌∷◌, map, if◌then◌else◌, ltb,
}
use theta_plus.Base.Raises.{Raises, ok, ◌>>=◌}
use theta_plus.Base.Int.{ℤ, leb_ℤ}
use theta_plus.Base.Float.{Float, Format}
use theta_plus.Clock.{Timestamp}
use theta_plus.Config.{AppConfig}
use theta_plus.Market.{HealthCode, MarketFeatures}
use theta_plus.Engine.Models.{
  Side, ce, pe, same_side, watch, entry_candidate, active, SignalState, Decision, waiting,
  decision_text, setup, invalidation, RuleResult, SignalDecision,
}
use theta_plus.Engine.Rules.{evaluate_ce_rules, evaluate_pe_rules}
use theta_plus.Engine.Score.{score_rules}
use theta_plus.Engine.Memory.{SignalMemory, apply}
use theta_plus.Engine.Health.{health_reasons}
use theta_plus.Engine.StateMachine.{same_state}
use theta_plus.Engine.Signal.Reasons.{
  Scores, opposite, suppressed, time_reason, already_active, opposite_pending, cooldown_reason,
  explain_both, setup_reasons,
}
use theta_plus.Engine.Signal.Filters.{time_filter_reason, invalidation_reason}

-- The local variables `decision`, `qualifying` and `reasons`.
pub record Verdict : Type 0 where
  pub decision : Decision
  pub qualifying : Option Side
  pub reasons : List String

abbrev pub waits : List String → Verdict
waits reasons = record { decision = waiting; qualifying = none; reasons = reasons }

-- `cooldown_until is not None and now < cooldown_until`
abbrev pub in_cooldown : Option Timestamp → Timestamp → Bool
in_cooldown none now = false
in_cooldown (some until) now = ltb now until

abbrev is_healthy : HealthCode → Bool
is_healthy HealthCode.healthy = true
is_healthy _ = false

-- `state.current_side and state.current_side != side and state.state in (WATCH, ENTRY_CANDIDATE, ACTIVE)`
abbrev pub is_pending : SignalState → Bool
is_pending watch = true
is_pending entry_candidate = true
is_pending active = true
is_pending _ = false

abbrev pub on_side : Option Side → Side → Bool
on_side none side = false
on_side (some current) side = same_side current side

-- `decision = f"{state.current_side}_INVALIDATED"`; the reason exists only beside a side.
invalidated_by : Option Side → String → Verdict
invalidated_by none inv = waits []
invalidated_by (some side) inv = record {
  decision = invalidation side;
  qualifying = none;
  reasons = (decision_text (invalidation side) ++ ": " ++ inv) ∷ [];
}

module _ {F : Type 0} ⦃fl : Float F⦄ ⦃fm : Format F⦄ where
  unfoldable pub score_sides : MarketFeatures F → AppConfig F → Scores
  score_sides f config =
      let ce_rules = evaluate_ce_rules f config in
      let pe_rules = evaluate_pe_rules f config in
      record {
        ce_rules = ce_rules;
        pe_rules = pe_rules;
        ce_score = (score_rules ce_rules).0;
        pe_score = (score_rules pe_rules).0;
        ce_max = (score_rules ce_rules).1;
        pe_max = (score_rules pe_rules).1;
      }

  -- Branch 7: exactly one side qualifies.
  unfoldable pub confirm : AppConfig F → SignalMemory F → Side → List RuleResult → ℤ → ℤ → Verdict
  confirm config state side rules score max_score =
      if same_state state.state active && on_side state.current_side side
      then waits (already_active side ∷ [])
      else (if opposite state.current_side side && is_pending state.state
          then waits (opposite_pending side state.current_side ∷ [])
          else record {
            decision = setup side;
            qualifying = some side;
            reasons = setup_reasons config side rules score max_score;
          })

  -- Branches 5 to 8.
  unfoldable pub decide : AppConfig F → SignalMemory F → Timestamp → Scores → Verdict
  decide config state now s =
      let ce_ok = leb_ℤ config.minimum_score s.ce_score in
      let pe_ok = leb_ℤ config.minimum_score s.pe_score in
      if in_cooldown state.cooldown_until now
      then waits (
          cooldown_reason fm state.signal_timestamp state.cooldown_until
          ∷ suppressed ce_ok pe_ok state.current_side)
      else (if ce_ok && pe_ok
          then waits (
              "CONFLICTING_SIGNALS: both CE and PE qualify; never silently choose one"
              ∷ explain_both config s)
          else (if ce_ok
              then confirm config state ce s.ce_rules s.ce_score s.ce_max
              else (if pe_ok
                  then confirm config state pe s.pe_rules s.pe_score s.pe_max
                  else waits (
                      ("confirmation insufficient: no side reached the minimum score "
                        ++ fm.int config.minimum_score)
                      ∷ explain_both config s))))

  -- The chain of `evaluate`, branches 1 to 8.
  unfoldable pub verdict :
      MarketFeatures F → AppConfig F → SignalMemory F → Timestamp → Raises Verdict
  unfolding invalidated_by
  verdict f config state now =
      if not config.enabled
      then ok (waits ("SYSTEM_DISABLED: kill switch is off — no signals can be generated" ∷ []))
      else (if not (is_healthy f.data_health.status)
          then ok (
              waits
                (map (λ (code : String). code ++ ": data health gate failed") (health_reasons f)))
          else elim (time_filter_reason now config) [
            | some filter ↦ ok (waits (time_reason config filter ∷ []))
            | none ↦ do
              reason ← invalidation_reason f config state
              elim reason [
                | some inv ↦ ok (invalidated_by state.current_side inv)
                | none ↦ ok (decide config state now (score_sides f config))
              ]
          ])

  unfoldable pub evaluate :
      MarketFeatures F → AppConfig F → SignalMemory F → Timestamp → Raises (SignalDecision F)
  unfolding verdict
  evaluate f config state now = do
    v ← verdict f config state now
    let s = score_sides f config
    ok (record {
      timestamp = now;
      symbol = f.symbol;
      decision = v.decision;
      state = state.state;
      ce_score = s.ce_score;
      pe_score = s.pe_score;
      ce_max_score = s.ce_max;
      pe_max_score = s.pe_max;
      qualifying_side = v.qualifying;
      reasons = v.reasons;
      ce_rules = s.ce_rules;
      pe_rules = s.pe_rules;
      atm = f.atm.atm_strike;
      spot = f.spot;
      vwap = f.vwap.vwap;
      pcr = f.pcr.total_pcr;
      pcr_trend = some f.pcr.pcr_trend;
      strategy_version = config.strategy_version;
      feature_engine_version = f.feature_engine_version;
      config_version = config.config_version;
      data_health = f.data_health.status;
      cooldown_until = state.cooldown_until;
    })

  -- The decision carries the state and the cooldown of the memory after it.
  unfoldable pub evaluate_and_apply :
      SignalMemory F
      → MarketFeatures F
      → AppConfig F
      → Timestamp
      → Raises (SignalDecision F × SignalMemory F)
  evaluate_and_apply memory f config now = do
    decision ← evaluate f config memory now
    after ← apply memory decision now config.signal_cooldown_minutes
    ok (record decision { state = after.state; cooldown_until = after.cooldown_until }, after)
