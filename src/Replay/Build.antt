-- ===== src/Replay/Build.antt =====
-- backend/replay/outcome_engine.py: the outcomes of all setups of a replay.
use theta_plus.Base.{
  Bool, ◌&&◌, Option, none, some, String, List, [], ◌∷◌, if◌then◌else◌, ltb, ◌==◌, str_eq,
  find_first,
}
use theta_plus.Base.Int.{ℤ}
use theta_plus.Base.Float.{Float}
use theta_plus.Clock.{Timestamp, date_of}
use theta_plus.Config.{AppConfig}
use theta_plus.Market.{MarketSnapshot}
use theta_plus.Engine.Models.{Side, same_side, is_setup, is_invalidation, side_of}
use theta_plus.Replay.Models.{ReplaySignal, SignalOutcome}
use theta_plus.Replay.Outcome.{observations_from_snapshots, entry_price, evaluate_outcome}

pub record Invalidation : Type 0 where
  pub at : Timestamp
  pub side : Side
  pub instrument : String
  pub expiry : String

unfoldable pub invalidations : {F : Type 0} → List (ReplaySignal F) → List Invalidation
invalidations [] = []
invalidations (s ∷ signals) =
    let rest = invalidations signals in
    if is_invalidation s.decision
    then record {
      at = s.timestamp;
      side = side_of s.decision;
      instrument = s.instrument;
      expiry = s.expiry;
    }
      ∷ rest
    else rest

abbrev pub ends_signal : {F : Type 0} → ReplaySignal F → Invalidation → Bool
ends_signal sig inv =
    same_side inv.side (side_of sig.decision)
    && str_eq inv.instrument sig.instrument
    && str_eq inv.expiry sig.expiry
    && (date_of inv.at == date_of sig.timestamp)
    && ltb sig.timestamp inv.at

abbrev at_of : Option Invalidation → Option Timestamp
at_of none = none
at_of (some inv) = some inv.at

-- The first invalidation of the signal's side and contract, later on the same day.
unfoldable pub invalidation_at :
    {F : Type 0} → List (ReplaySignal F) → ReplaySignal F → Option Timestamp
invalidation_at signals sig = at_of (find_first (ends_signal sig) (invalidations signals))

module _ {F : Type 0} ⦃fl : Float F⦄ (config : AppConfig F) where
  abbrev outcome_of :
      List (ReplaySignal F) → List (MarketSnapshot F) → ReplaySignal F → ℤ → SignalOutcome F
  outcome_of signals snapshots sig strike =
      evaluate_outcome config sig (entry_price snapshots sig)
        (observations_from_snapshots snapshots strike (side_of sig.decision) sig.timestamp
          sig.expiry sig.instrument)
        (invalidation_at signals sig)

  abbrev pub with_outcome :
      List (ReplaySignal F)
      → List (MarketSnapshot F)
      → ReplaySignal F
      → Option ℤ
      → List (SignalOutcome F)
      → List (SignalOutcome F)
  with_outcome signals snapshots sig none rest = rest
  with_outcome signals snapshots sig (some strike) rest =
      if is_setup sig.decision then outcome_of signals snapshots sig strike ∷ rest else rest

  unfoldable pub outcomes_for :
      List (ReplaySignal F)
      → List (MarketSnapshot F)
      → List (ReplaySignal F)
      → List (SignalOutcome F)
  outcomes_for signals snapshots [] = []
  outcomes_for signals snapshots (sig ∷ sigs) =
      with_outcome signals snapshots sig sig.atm (outcomes_for signals snapshots sigs)

  unfoldable pub build_outcomes :
      List (ReplaySignal F) → List (MarketSnapshot F) → List (SignalOutcome F)
  build_outcomes signals snapshots = outcomes_for signals snapshots signals
