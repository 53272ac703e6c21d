-- ===== src/Engine/Session/Spacing.antt =====
-- Runs of ticks: the memory stays valid, and setups keep their distance.
use theta_plus.Base.{◌+◌, ◌*◌, ◌<◌, ◌≡◌, true, false, some, List, [], ◌∷◌, arith, All}
use theta_plus.Base.Float.{Float, Format}
use theta_plus.Base.Raises.{ok}
use theta_plus.Clock.{Timestamp, minute, plus_minutes-cases}
use theta_plus.Config.{AppConfig}
use theta_plus.Market.{MarketFeatures}
use theta_plus.Engine.Models.{is_setup, is_invalidation, SignalDecision}
use theta_plus.Engine.Memory.{SignalMemory, apply, advance, is_exit}
use theta_plus.Engine.StateMachine.{transition}
use theta_plus.Engine.Signal.{evaluate, evaluate_and_apply, decide}
use theta_plus.Engine.Signal.Expiry.{evaluate-quiet}
use theta_plus.Engine.Session.{tick_parts}

-- One entry of a run: when, and what was decided.
abbrev pub Entry : Type 0 → Type 0
Entry F = record { now : Timestamp; decision : SignalDecision F }

module _ {F : Type 0} ⦃fl : Float F⦄ ⦃fm : Format F⦄ (config : AppConfig F) where
  -- Ticks one after the other, each on the memory that the one before it left.
  pub data Run : SignalMemory F → List (Entry F) → SignalMemory F → Type 0 where
    done : {m : SignalMemory F} → Run m [] m
    tick :
        {m m' m'' : SignalMemory F} {d : SignalDecision F} {es : List (Entry F)}
        (f : MarketFeatures F) (now : Timestamp)
        → evaluate_and_apply m f config now ≡ ok (d, m')
        → Run m' es m''
        → Run m (record { now = now; decision = d } ∷ es) m''

  abbrev Cools : Timestamp → SignalMemory F → Type 0
  Cools until m = (m.cooldown_until ≡ some until) × (is_exit m.state ≡ false)

  -- A tick before the end of the cooldown emits no setup, and keeps the cooldown unless it
  -- invalidates.
  tick_in_cooldown :
      (until : Timestamp) (m : SignalMemory F) (f : MarketFeatures F) (now : Timestamp)
      {d : SignalDecision F} {m' : SignalMemory F}
      → Cools until m
      → now < until
      → evaluate_and_apply m f config now ≡ ok (d, m')
      → (is_setup d.decision ≡ false) × (is_invalidation d.decision ≡ false → Cools until m')
  unfolding evaluate decide apply transition advance
  tick_in_cooldown until m f now c h e =
      let (raw, evaluated, applied, same) = tick_parts config m f now e in
      ground (arith, evaluate-quiet config m f now raw evaluated)

  abbrev Before : Timestamp → Entry F → Type 0
  Before until e = (e.now < until) × (is_invalidation e.decision.decision ≡ false)

  Run-Cools :
      {m m' : SignalMemory F} {es : List (Entry F)} (until : Timestamp)
      → Run m es m'
      → Cools until m
      → All (Before until) es
      → All (λ e. is_setup e.decision.decision ≡ false) es
  Run-Cools until done c h = tt
  Run-Cools {m} until (tick f now e r) c h =
      let (quiet, keeps) = tick_in_cooldown until m f now c h.0.0 e in
      (quiet, Run-Cools until r (keeps h.0.1) h.1)

  setup-Cools :
      (m : SignalMemory F) (f : MarketFeatures F) (now : Timestamp) {d : SignalDecision F}
      {m' : SignalMemory F}
      → is_exit m.state ≡ false
      → evaluate_and_apply m f config now ≡ ok (d, m')
      → is_setup d.decision ≡ true
      → Cools (now + config.signal_cooldown_minutes * minute) m'
  unfolding apply transition advance
  setup-Cools m f now x e s =
      let (raw, evaluated, applied, same) = tick_parts config m f now e in
      let ends = plus_minutes-cases now config.signal_cooldown_minutes in ground arith

  -- After a setup that was emitted outside the exit states, no tick of any run emits a setup before
  -- the configured cooldown is over, as long as no signal is invalidated.
  pub Run-spacing :
      (m : SignalMemory F) (f : MarketFeatures F) (now : Timestamp) {d : SignalDecision F}
      {m' m'' : SignalMemory F} {es : List (Entry F)}
      → is_exit m.state ≡ false
      → evaluate_and_apply m f config now ≡ ok (d, m')
      → is_setup d.decision ≡ true
      → Run m' es m''
      → All (Before (now + config.signal_cooldown_minutes * minute)) es
      → All (λ e. is_setup e.decision.decision ≡ false) es
  Run-spacing m f now x e s r h = Run-Cools _ r (setup-Cools m f now x e s) h
