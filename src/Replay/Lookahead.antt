-- ===== src/Replay/Lookahead.antt =====
-- backend/replay/outcome_engine.py: an outcome rests on its own contract's later prices of its own day,
-- and on nothing else.
use mathlib.Core.Option
use theta_plus.Base.{
  ◌≡◌, ◌<◌, inl, inr, none, some, String, List, [], ◌∷◌, arith, str_eq_iff, Option-cases,
}
use theta_plus.Base.Int.{ℤ}
use theta_plus.Clock.{Timestamp, date_of}
use theta_plus.Market.{MarketSnapshot}
use theta_plus.Engine.Models.{Side}
use theta_plus.Replay.Observation.{OptionObservation, row_at, leg}
use theta_plus.Replay.Outcome.{observation_of, observations_from_snapshots}

module _ {F : Type 0} (strike : ℤ) (side : Side) (cutoff : Timestamp)
    (expiry instrument : String) where
  -- The snapshot shows the price of this contract, later on the day of the cutoff.
  abbrev pub Shows : MarketSnapshot F → OptionObservation F → Type 0
  Shows snap obs =
      (obs.timestamp ≡ snap.timestamp)
      × (cutoff < snap.timestamp)
      × (date_of snap.timestamp ≡ date_of cutoff)
      × (snap.instrument ≡ instrument)
      × (snap.chain.expiry ≡ expiry)
      × (Option.map (λ row. (leg side row).ltp) (row_at strike snap.chain.rows) ≡ some obs.ltp)

  -- The observations are those that snapshots show, in the snapshots' order; a snapshot without one
  -- shows nothing of the contract.
  pub data Shown : List (MarketSnapshot F) → List (OptionObservation F) → Type 0 where
    nothing : Shown [] []
    passed :
        (snap : MarketSnapshot F) (snaps : List (MarketSnapshot F))
        (observations : List (OptionObservation F))
        → ((obs : OptionObservation F) → ¬ Shows snap obs)
        → Shown snaps observations
        → Shown (snap ∷ snaps) observations
    shown :
        (snap : MarketSnapshot F) (obs : OptionObservation F) (snaps : List (MarketSnapshot F))
        (observations : List (OptionObservation F))
        → Shows snap obs
        → Shown snaps observations
        → Shown (snap ∷ snaps) (obs ∷ observations)

  observation_of-some :
      (snap : MarketSnapshot F) (obs : OptionObservation F)
      → observation_of strike side cutoff expiry instrument snap ≡ some obs
      → Shows snap obs
  unfolding observation_of
  observation_of-some snap obs e =
      ground (arith, str_eq_iff snap.instrument instrument, str_eq_iff snap.chain.expiry expiry)

  observation_of-none :
      (snap : MarketSnapshot F) (obs : OptionObservation F)
      → observation_of strike side cutoff expiry instrument snap ≡ none
      → ¬ Shows snap obs
  unfolding observation_of
  observation_of-none snap obs e h =
      ground (arith, str_eq_iff snap.instrument instrument, str_eq_iff snap.chain.expiry expiry)

  -- The observations of a signal are exactly what the snapshots show of its contract after it, on its
  -- day, in order: nothing from its own moment or before, from another day, or of another contract.
  pub observations_from_snapshots-Shown :
      (snaps : List (MarketSnapshot F))
      → Shown snaps (observations_from_snapshots snaps strike side cutoff expiry instrument)
  unfolding observations_from_snapshots
  observations_from_snapshots-Shown [] = nothing
  observations_from_snapshots-Shown (snap ∷ snaps) =
      elim (Option-cases (observation_of strike side cutoff expiry instrument snap)) [
        | inl e ↦ rw e (
            passed snap snaps _ (λ obs. observation_of-none snap obs e)
              (observations_from_snapshots-Shown snaps))
        | inr (obs, e) ↦ rw e (
            shown snap obs snaps _ (observation_of-some snap obs e)
              (observations_from_snapshots-Shown snaps))
      ]
