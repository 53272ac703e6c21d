-- ===== src/Engine/Session.antt =====
-- Runs of the signal engine: `evaluate_and_apply` (backend/engines/signal_engine.py), tick after
-- tick, on the memory of backend/engines/signal_memory.py.
pub mod Spacing
use theta_plus.Base.{
  ℕ, ◌+◌, ◌*◌, ◌≤◌, ◌<◌, ◌≡◌, refl, ◌≢◌, Bool, true, false, Option, none, some, String, List, [],
  ◌∷◌, arith, All, is_some,
}
use theta_plus.Base.Float.{Float, Format}
use theta_plus.Base.Raises.{Raises, ok, raised, Returns, Returns-of, >>=-eq-ok}
use theta_plus.Clock.{Timestamp, minute, end_of_time, plus_minutes-cases}
use theta_plus.Config.{AppConfig}
use theta_plus.Market.{MarketFeatures}
use theta_plus.Engine.Models.{
  SignalState, wait, watch, entry_candidate, active, invalidated, target, stoploss, expired, Side,
  Decision, waiting, is_setup, is_invalidation, SignalDecision,
}
use theta_plus.Engine.Memory.{SignalMemory, apply, advance, is_exit}
use theta_plus.Engine.Memory.Laws.{IsValid, apply_total, apply-IsValid}
use theta_plus.Engine.StateMachine.{transition}
use theta_plus.Engine.Signal.{
  evaluate, evaluate_and_apply, decide, confirm, in_cooldown, invalidation_reason,
}
use theta_plus.Engine.Signal.Expiry.{evaluate-quiet}

-- The states that stand for the end of a trade or of the session.
abbrev pub is_over : SignalState → Bool
is_over target = true
is_over stoploss = true
is_over expired = true
is_over _ = false

module _ {F : Type 0} ⦃fl : Float F⦄ ⦃fm : Format F⦄ (config : AppConfig F) where
  -- A tick is a call that returned: its decision came from `evaluate`, its memory from `apply`.
  pub tick_parts :
      (m : SignalMemory F) (f : MarketFeatures F) (now : Timestamp) {d : SignalDecision F}
      {m' : SignalMemory F}
      → evaluate_and_apply m f config now ≡ ok (d, m')
      → (raw : SignalDecision F) × (evaluate f config m now ≡ ok raw)
        × (apply m raw now config.signal_cooldown_minutes ≡ ok m')
        × (d ≡ record raw { state = m'.state; cooldown_until = m'.cooldown_until })
  unfolding evaluate_and_apply
  tick_parts m f now e =
      let (raw, evaluated, rest) = >>=-eq-ok (evaluate f config m now) _ e in
      let (after, applied, ends) =
        >>=-eq-ok (apply m raw now config.signal_cooldown_minutes) _ rest in
      (raw, evaluated, ground arith, ground arith)

  -- No tick moves the memory into EXPIRED, TARGET or STOPLOSS.
  pub evaluate_and_apply-not_over :
      (m : SignalMemory F) (f : MarketFeatures F) (now : Timestamp) {d : SignalDecision F}
      {m' : SignalMemory F}
      → is_over m.state ≡ false
      → evaluate_and_apply m f config now ≡ ok (d, m')
      → is_over m'.state ≡ false
  unfolding apply transition advance
  evaluate_and_apply-not_over m f now h e =
      let (raw, evaluated, applied, same) = tick_parts m f now e in
      ground (arith, evaluate-quiet config m f now raw evaluated)

  -- The features that the engine builds: a valid VWAP has a value.
  abbrev pub IsComplete : MarketFeatures F → Type 0
  IsComplete f = f.vwap.valid ≡ true → is_some f.vwap.vwap ≡ true

  evaluate_total :
      (m : SignalMemory F) (f : MarketFeatures F) (now : Timestamp)
      → IsComplete f
      → Returns (evaluate f config m now)
  unfolding evaluate invalidation_reason
  evaluate_total m f now h = Returns-of _ (λ e. ground arith)

  -- On complete features a tick raises nothing, whatever the memory, as long as a cooldown that begins
  -- now ends before the end of the year 9999.
  pub evaluate_and_apply_total :
      (m : SignalMemory F) (f : MarketFeatures F) (now : Timestamp)
      → IsComplete f
      → now + config.signal_cooldown_minutes * minute < end_of_time
      → Returns (evaluate_and_apply m f config now)
  unfolding evaluate_and_apply
  evaluate_and_apply_total m f now h ends =
      let (d, evaluated) = evaluate_total m f now h in
      let (after, applied) = apply_total m d now config.signal_cooldown_minutes ends in
      Returns-of _ (λ e. ground arith)

  -- A tick that begins in an exit state and emits a setup stays there. If the next tick waits, the
  -- memory forgets the cooldown that the setup has started.
  pub exit_setup_loses_cooldown :
      (m m' m'' : SignalMemory F) (f f' : MarketFeatures F) (now now' : Timestamp)
      (d d' : SignalDecision F)
      → is_exit m.state ≡ true
      → evaluate_and_apply m f config now ≡ ok (d, m')
      → is_setup d.decision ≡ true
      → evaluate_and_apply m' f' config now' ≡ ok (d', m'')
      → d'.decision ≡ waiting
      → (m'.state ≡ m.state)
        × (m'.cooldown_until ≡ some (now + config.signal_cooldown_minutes * minute))
        × (m''.state ≡ wait)
        × (m''.cooldown_until ≡ none)
  unfolding apply transition advance
  exit_setup_loses_cooldown m m' m'' f f' now now' d d' x e s e' w =
      let (raw, evaluated, applied, same) = tick_parts m f now e in
      let (raw', evaluated', applied', same') = tick_parts m' f' now' e' in
      let ends = plus_minutes-cases now config.signal_cooldown_minutes in
      ground (arith, evaluate-quiet config m' f' now' raw' evaluated')
