-- ===== src/Engine/Signal/Setup.antt =====
-- When `evaluate` (backend/engines/signal_engine.py) decides for a setup.
use theta_plus.Base.{◌≤◌, ◌<◌, ◌≡◌, ◌↔◌, true, false, Option, none, some, arith}
use theta_plus.Base.Int.{◌≤ℤ◌, ◌<ℤ◌}
use theta_plus.Base.Float.{Float, Format}
use theta_plus.Base.Raises.{ok, Returns, Returns-of}
use theta_plus.Clock.{Timestamp, time_of}
use theta_plus.Config.{AppConfig, parse_hhmm}
use theta_plus.Market.{HealthCode, MarketFeatures}
use theta_plus.Engine.Models.{
  Side, ce, pe, setup, SignalState, watch, entry_candidate, active, SignalDecision,
}
use theta_plus.Engine.Memory.{SignalMemory}
use theta_plus.Engine.Signal.Filters.{time_filter_reason, invalidation_reason}
use theta_plus.Engine.Signal.Reasons.{Scores}
use theta_plus.Engine.Signal.Evaluate.{decide, confirm, score_sides, evaluate}

-- The cooldown is over.
abbrev pub CooledAt : Option Timestamp → Timestamp → Type 0
CooledAt none now = Unit
CooledAt (some until) now = until ≤ now

-- No pending signal is on the other side, and no active one at all.
abbrev pub IsFree : Side → SignalState → Option Side → Type 0
IsFree side active (some current) = ⊥
IsFree side watch (some current) = current ≡ side
IsFree side entry_candidate (some current) = current ≡ side
IsFree side _ _ = Unit

-- One side reaches the minimum score, and the other does not.
abbrev pub IsAlone : {F : Type 0} → AppConfig F → Scores → Side → Type 0
IsAlone config s ce = (config.minimum_score ≤ℤ s.ce_score) × (s.pe_score <ℤ config.minimum_score)
IsAlone config s pe = (config.minimum_score ≤ℤ s.pe_score) × (s.ce_score <ℤ config.minimum_score)

pub record InWindow {F : Type 0} (config : AppConfig F) (now : Timestamp) : Type 0 where
  pub started : parse_hhmm config.signal_start_time ≤ time_of now
  pub not_over : time_of now ≤ parse_hhmm config.signal_end_time
  pub not_at_end :
      config.signal_end_inclusive ≡ false → time_of now < parse_hhmm config.signal_end_time

module _ {F : Type 0} ⦃fl : Float F⦄ ⦃fm : Format F⦄ (f : MarketFeatures F) (config : AppConfig F)
    (state : SignalMemory F) (now : Timestamp) where
  -- All that a setup of one side takes.
  pub record Confirmed (side : Side) : Type 0 where
    pub enabled : config.enabled ≡ true
    pub healthy : f.data_health.status ≡ HealthCode.healthy
    pub in_window : InWindow config now
    pub cooled : CooledAt state.cooldown_until now
    pub alone : IsAlone config (score_sides f config) side
    pub free : IsFree side state.state state.current_side

  time_filter_reason-InWindow : (time_filter_reason now config ≡ none) ↔ InWindow config now
  unfolding time_filter_reason
  time_filter_reason-InWindow = (λ h. ground arith, λ h. ground arith)

  Confirmed-of_decision :
      (side : Side) (d : SignalDecision F)
      → evaluate f config state now ≡ ok d
      → d.decision ≡ setup side
      → Confirmed side
  unfolding evaluate decide confirm
  Confirmed-of_decision side d e h = ground (arith, time_filter_reason-InWindow.0)

  -- A signal that leaves a setup free is not invalidated in its place.
  Confirmed-invalidation_reason :
      (side : Side) → Confirmed side → invalidation_reason f config state ≡ ok none
  unfolding invalidation_reason
  Confirmed-invalidation_reason side c = ground arith

  Confirmed-Returns : (side : Side) → Confirmed side → Returns (evaluate f config state now)
  unfolding evaluate
  Confirmed-Returns side c = Returns-of _ (λ x.
      ground
        (arith, Confirmed-invalidation_reason side c, time_filter_reason-InWindow.1 c.in_window))

  Confirmed-decision :
      (side : Side) (d : SignalDecision F)
      → Confirmed side
      → evaluate f config state now ≡ ok d
      → d.decision ≡ setup side
  unfolding evaluate decide confirm
  Confirmed-decision side d c e =
      ground
        (arith, Confirmed-invalidation_reason side c, time_filter_reason-InWindow.1 c.in_window)

  -- `evaluate` returns a setup of a side exactly when the system is enabled, the data healthy, the
  -- clock inside the signal window, the cooldown over, that side alone reaches the minimum score,
  -- no signal is active and none is pending on the other side.
  pub evaluate-setup_iff :
      (side : Side)
      → ((d : SignalDecision F) × (evaluate f config state now ≡ ok d) × (d.decision ≡ setup side))
        ↔ Confirmed side
  evaluate-setup_iff side = (
    λ (d, e, h). Confirmed-of_decision side d e h,
    λ c. let (d, e) = Confirmed-Returns side c in (d, e, Confirmed-decision side d c e),
  )
