-- ===== src/Replay/Verdict.antt =====
-- backend/replay/outcome_engine.py: an outcome against an independent account of it, which observation
-- decides and what it decides.
use theta_plus.Base.{
  ℕ, suc, ◌+◌, ◌≡◌, true, false, Option, some, List, [], ◌∷◌, ◌++◌, arith, All, length, if_cases,
  ◌&&◌,
}
use theta_plus.Base.Float.{Float}
use theta_plus.Clock.{Timestamp}
use theta_plus.Config.{AppConfig}
use theta_plus.Replay.Observation.{OptionObservation, hi, lo}
use theta_plus.Replay.Models.{
  ReplaySignal, OutcomeState, target, stoploss, invalidated, expired, ambiguous, no_data,
  SignalOutcome,
}
use theta_plus.Replay.Outcome.{
  Walk, seen, past, goal_of, stop_of, walk_from, walk_all, evaluate_outcome,
}

module _ {F : Type 0} ⦃fl : Float F⦄ (goal stop : F) (inv : Option Timestamp) where
  -- The observation is not later than the invalidation, and touches neither price.
  abbrev pub IsPending : OptionObservation F → Type 0
  IsPending obs =
      (past inv obs ≡ false) × (fl.le goal (hi obs) ≡ false) × (fl.le (lo obs) stop ≡ false)

  -- What it takes of an observation to end a signal in a state. No observation ends it in the states
  -- that stand for a want of data.
  abbrev pub Decides : OutcomeState → OptionObservation F → Type 0
  Decides invalidated obs = past inv obs ≡ true
  Decides ambiguous obs =
      (past inv obs ≡ false) × (fl.le goal (hi obs) ≡ true) × (fl.le (lo obs) stop ≡ true)
  Decides target obs =
      (past inv obs ≡ false) × (fl.le goal (hi obs) ≡ true) × (fl.le (lo obs) stop ≡ false)
  Decides stoploss obs =
      (past inv obs ≡ false) × (fl.le goal (hi obs) ≡ false) × (fl.le (lo obs) stop ≡ true)
  Decides expired obs = ⊥
  Decides no_data obs = ⊥

  -- The first observation that is not pending decides; without one the signal expires.
  pub data Explains (start : ℕ) : List (OptionObservation F) → OutcomeState → ℕ → Type 0 where
    exhausted :
        (observations : List (OptionObservation F)) (used : ℕ)
        → All IsPending observations
        → used ≡ start + length observations
        → Explains start observations expired used
    decided :
        (front : List (OptionObservation F)) (obs : OptionObservation F)
        (back : List (OptionObservation F)) (state : OutcomeState) (used : ℕ)
        → All IsPending front
        → Decides state obs
        → used ≡ start + length front + 1
        → Explains start (front ++ (obs ∷ back)) state used

  later :
      (start : ℕ) (obs : OptionObservation F) (rest : List (OptionObservation F))
      (state : OutcomeState) (used : ℕ)
      → IsPending obs
      → Explains (suc start) rest state used
      → Explains start (obs ∷ rest) state used
  later start obs _ _ _ p (exhausted rest used ps e) =
      exhausted (obs ∷ rest) used (p, ps) (omega arith)
  later start obs _ _ _ p (decided front o back state used ps d e) =
      decided (obs ∷ front) o back state used (p, ps) d (omega arith)

module _ {F : Type 0} ⦃fl : Float F⦄ (signal : ReplaySignal F) (entry goal stop : F)
    (inv : Option Timestamp) where
  abbrev Explained : List (OptionObservation F) → ℕ → SignalOutcome F → Type 0
  Explained observations start o =
      Explains goal stop inv start observations o.exit_state o.observations_used

  walk_from-Explained :
      (walk : Walk F) (last : OptionObservation F) (observations : List (OptionObservation F))
      → Explained observations walk.used
          (walk_from signal entry goal stop inv walk last observations)
  unfolding walk_from
  walk_from-Explained walk last [] = exhausted [] walk.used tt (omega arith)
  walk_from-Explained walk last (obs ∷ rest) =
      if_cases (Explained (obs ∷ rest) walk.used) (past inv obs)
        (λ h. decided [] obs rest invalidated (suc walk.used) tt h (omega arith))
        λ p.
          if_cases (Explained (obs ∷ rest) walk.used) (fl.le goal (hi obs) && fl.le (lo obs) stop)
            (λ h. decided [] obs rest ambiguous (suc walk.used) tt (ground arith) (omega arith))
            λ n.
              if_cases (Explained (obs ∷ rest) walk.used) (fl.le goal (hi obs))
                (λ h. decided [] obs rest target (suc walk.used) tt (ground arith) (omega arith))
                λ g.
                  if_cases (Explained (obs ∷ rest) walk.used) (fl.le (lo obs) stop)
                    (λ h.
                      decided [] obs rest stoploss (suc walk.used) tt (ground arith) (omega arith))
                    λ l.
                      later goal stop inv walk.used obs rest _ _ (p, g, l)
                        (walk_from-Explained (seen entry walk obs) obs rest)

module _ {F : Type 0} ⦃fl : Float F⦄ (config : AppConfig F) (signal : ReplaySignal F) where
  -- With an entry above zero and at least one observation, the outcome is the one that the first
  -- decisive observation gives: an observation after the invalidation invalidates, one that reaches
  -- both prices is ambiguous, one that reaches one price ends there; no observation before it was
  -- decisive, and the observations used are those up to it. Without one the signal expires after
  -- all observations.
  pub evaluate_outcome-Explains :
      (entry : F) (obs : OptionObservation F) (rest : List (OptionObservation F))
      (inv : Option Timestamp)
      → fl.le entry fl.nought ≡ false
      → let o = evaluate_outcome config signal (some entry) (obs ∷ rest) inv in
        Explains
          (goal_of config entry)
          (stop_of config entry)
          inv
          0
          (obs ∷ rest)
          o.exit_state
          o.observations_used
  unfolding evaluate_outcome walk_all
  evaluate_outcome-Explains entry obs rest inv h = rw h (
      walk_from-Explained signal entry (goal_of config entry) (stop_of config entry) inv _ obs
        (obs ∷ rest))
