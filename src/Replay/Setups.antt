-- ===== src/Replay/Setups.antt =====
-- backend/replay/outcome_engine.py: what `build_outcomes` makes of the signals of a run.

use theta_plus.Base.{
  ◌≡◌, ◌<◌, ◌↔◌, ◌⊎◌, inl, inr, refl, Bool, true, false, ◌&&◌, Option, none, some, List, [], ◌∷◌,
  arith, is_some, ℕ, not, if◌then◌else◌, ◌≢◌, Bool-cases, find_first, Option-cases, select, map,
}
use theta_plus.Base.Int.{ℤ}
use theta_plus.Base.Float.{Float}
use theta_plus.Clock.{Timestamp, date_of}
use theta_plus.Config.{AppConfig}
use theta_plus.Market.{MarketSnapshot}
use theta_plus.Engine.Models.{is_setup, side_of}
use theta_plus.Replay.Observation.{OptionObservation}
use theta_plus.Replay.Models.{
  ReplaySignal, OutcomeState, SignalOutcome, target, stoploss, invalidated, expired, ambiguous,
  no_data,
}
use theta_plus.Replay.Outcome.{
  Walk, seen, goal_of, stop_of, walk_from, walk_all, entry_price, observations_from_snapshots,
  evaluate_outcome,
}
use theta_plus.Replay.Build.{
  invalidations, ends_signal, invalidation_at, with_outcome, outcomes_for, build_outcomes,
}
use theta_plus.Replay.Verdict.{Explains, exhausted, decided, evaluate_outcome-Explains}

-- A setup that names a strike.
abbrev pub is_tradable : {F : Type 0} → ReplaySignal F → Bool
is_tradable sig = is_setup sig.decision && is_some sig.atm

found-passes :
    {A : Type 0} (test : A → Bool) (xs : List A) (x : A)
    → find_first test xs ≡ some x
    → test x ≡ true
found-passes test [] x e = cc
found-passes test (y ∷ xs) x e = ground (arith, found-passes test xs x)

-- An invalidation that ends a signal comes after it, on its day.
pub invalidation_at-IsLater :
    {F : Type 0}
    → (signals : List (ReplaySignal F)) (sig : ReplaySignal F) (ts : Timestamp)
    → invalidation_at signals sig ≡ some ts
    → (sig.timestamp < ts) × (date_of ts ≡ date_of sig.timestamp)
unfolding invalidation_at
invalidation_at-IsLater signals sig ts h =
    elim (Option-cases (find_first (ends_signal sig) (invalidations signals))) [
      | inl e ↦ ground arith
      | inr (inv, e) ↦ ground (arith, found-passes (ends_signal sig) (invalidations signals) inv e)
    ]

module _ {F : Type 0} ⦃fl : Float F⦄ (config : AppConfig F) where
  signal_id-walk_from :
      (signal : ReplaySignal F) (entry goal stop : F) (inv : Option Timestamp) (walk : Walk F)
      (last : OptionObservation F) (observations : List (OptionObservation F))
      → (walk_from signal entry goal stop inv walk last observations).signal_id ≡ signal.signal_id
  unfolding walk_from
  signal_id-walk_from signal entry goal stop inv walk last [] = refl
  signal_id-walk_from signal entry goal stop inv walk last (obs ∷ rest) =
      ground (arith, signal_id-walk_from signal entry goal stop inv (seen entry walk obs) obs rest)

  signal_id-evaluate_outcome :
      (signal : ReplaySignal F) (entry : Option F) (observations : List (OptionObservation F))
      (inv : Option Timestamp)
      → (evaluate_outcome config signal entry observations inv).signal_id ≡ signal.signal_id
  unfolding evaluate_outcome walk_all
  signal_id-evaluate_outcome signal none observations inv = refl
  signal_id-evaluate_outcome signal (some entry) [] inv = ground arith
  signal_id-evaluate_outcome signal (some entry) (obs ∷ rest) inv = ground (
    arith,
    signal_id-walk_from signal entry (goal_of config entry) (stop_of config entry) inv
        (record { used = 0; mfe = fl.nought; mae = fl.nought }) obs (obs ∷ rest),
  )

  signals-with_outcome :
      (signals : List (ReplaySignal F)) (snapshots : List (MarketSnapshot F)) (sig : ReplaySignal F)
      (strike : Option ℤ) (rest : List (SignalOutcome F)) (sigs : List (ReplaySignal F))
      → map (λ o. o.signal_id) rest ≡ map (λ s. s.signal_id) sigs
      → map (λ o. o.signal_id) (with_outcome config signals snapshots sig strike rest)
        ≡ map
            (λ s. s.signal_id)
            (if is_setup sig.decision && is_some strike then sig ∷ sigs else sigs)
  signals-with_outcome signals snapshots sig none rest sigs e = ground arith
  signals-with_outcome signals snapshots sig (some strike) rest sigs e = ground (
    arith,
    signal_id-evaluate_outcome sig (entry_price snapshots sig)
        (observations_from_snapshots snapshots strike (side_of sig.decision) sig.timestamp
          sig.expiry sig.instrument)
        (invalidation_at signals sig),
  )

  signals-outcomes_for :
      (signals : List (ReplaySignal F)) (snapshots : List (MarketSnapshot F))
      (sigs : List (ReplaySignal F))
      → map (λ o. o.signal_id) (outcomes_for config signals snapshots sigs)
        ≡ map (λ sig. sig.signal_id) (select is_tradable sigs)
  unfolding outcomes_for
  signals-outcomes_for signals snapshots [] = refl
  signals-outcomes_for signals snapshots (sig ∷ sigs) =
      signals-with_outcome signals snapshots sig sig.atm
        (outcomes_for config signals snapshots sigs) (select is_tradable sigs)
        (signals-outcomes_for signals snapshots sigs)

  -- A replay has one outcome for each setup that names a strike, in the order of the signals, and none
  -- for any other signal.
  pub build_outcomes-signals :
      (signals : List (ReplaySignal F)) (snapshots : List (MarketSnapshot F))
      → map (λ o. o.signal_id) (build_outcomes config signals snapshots)
        ≡ map (λ sig. sig.signal_id) (select is_tradable signals)
  unfolding build_outcomes
  build_outcomes-signals signals snapshots = signals-outcomes_for signals snapshots signals

  -- An entry that the outcome engine accepts.
  abbrev pub has_entry : Option F → Bool
  has_entry none = false
  has_entry (some entry) = not (fl.le entry fl.nought)

  explained-has_data :
      (goal stop : F) (inv : Option Timestamp) (start : ℕ)
      (observations : List (OptionObservation F)) (state : OutcomeState) (used : ℕ)
      → Explains goal stop inv start observations state used
      → state ≢ no_data
  explained-has_data goal stop inv start _ _ used (exhausted observations _ _ _) e = cc
  explained-has_data goal stop inv start _ _ used (decided front obs back no_data _ _ d _) e = d
  explained-has_data goal stop inv start _ _ used (decided front obs back target _ _ d _) e = cc
  explained-has_data goal stop inv start _ _ used (decided front obs back stoploss _ _ d _) e = cc
  explained-has_data goal stop inv start _ _ used (decided front obs back invalidated _ _ d _) e =
      cc
  explained-has_data goal stop inv start _ _ used (decided front obs back expired _ _ d _) e = cc
  explained-has_data goal stop inv start _ _ used (decided front obs back ambiguous _ _ d _) e = cc

  -- An outcome is NO_DATA exactly when the entry is missing or not above zero, or no observation came.
  pub evaluate_outcome-no_data_iff :
      (signal : ReplaySignal F) (entry : Option F) (observations : List (OptionObservation F))
      (inv : Option Timestamp)
      → ((evaluate_outcome config signal entry observations inv).exit_state ≡ no_data)
        ↔ ((has_entry entry ≡ false) ⊎ (observations ≡ []))
  unfolding evaluate_outcome walk_all
  evaluate_outcome-no_data_iff signal none observations inv = (λ _. inl refl, λ _. refl)
  evaluate_outcome-no_data_iff signal (some entry) [] inv = (λ _. inr refl, λ _. ground arith)
  evaluate_outcome-no_data_iff signal (some entry) (obs ∷ rest) inv =
      elim (Bool-cases (fl.le entry fl.nought)) [
        | inl low ↦ ground arith
        | inr high ↦ (
          λ e. absurd (
              explained-has_data (goal_of config entry) (stop_of config entry) inv 0 (obs ∷ rest) _
                _ (evaluate_outcome-Explains config signal entry obs rest inv high) e),
          λ want. ground arith,
        )
      ]
