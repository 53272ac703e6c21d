-- ===== src/Replay/Run.antt =====
-- backend/replay/backtest_engine.py: from the snapshots of a source to the result. The dates are
-- numbers of days, `none` for the empty text.
use theta_plus.Base.{ℕ, Bool, Option, none, some, String, List, [], ◌∷◌, if◌then◌else◌, ltb, leb}
use theta_plus.Base.Float.{Float, Format}
use theta_plus.Base.Sorting.{sorted_by}
use theta_plus.Base.Raises.{Raises, ok, ◌>>=◌}
use theta_plus.Clock.{date_of}
use theta_plus.Config.{AppConfig}
use theta_plus.Market.{MarketSnapshot}
use theta_plus.Replay.Models.{ReplaySignal, SignalOutcome}
use theta_plus.Replay.Build.{build_outcomes}
use theta_plus.Replay.Metrics.{ReplayMetrics, compute_metrics}
use theta_plus.Replay.Session.{replay_signals}

pub record ReplayResult (F : Type 0) : Type 0 where
  pub date_from : Option ℕ
  pub date_to : Option ℕ
  pub instrument : String
  pub signals : List (ReplaySignal F)
  pub outcomes : List (SignalOutcome F)
  pub metrics : ReplayMetrics F
  pub replay_hash : String
  pub ordering : String

abbrev pick : (ℕ → ℕ → Bool) → ℕ → Option ℕ → ℕ
pick before d none = d
pick before d (some e) = if before d e then d else e

module _ {F : Type 0} where
  abbrev time_le : MarketSnapshot F → MarketSnapshot F → Bool
  time_le a b = leb a.timestamp b.timestamp

  -- The first or the last of the signals' dates.
  abbrev bound_date : (ℕ → ℕ → Bool) → List (ReplaySignal F) → Option ℕ
  bound_date before [] = none
  bound_date before (s ∷ signals) =
      some (pick before (date_of s.timestamp) (bound_date before signals))

  abbrev instrument_of : AppConfig F → List (MarketSnapshot F) → String
  instrument_of config [] = config.instrument
  instrument_of config (s ∷ snapshots) = s.instrument

module _ {F : Type 0} ⦃fl : Float F⦄ ⦃fm : Format F⦄ (uuid5 sha256 : String → String)
    (mean median : List F → F) (config : AppConfig F) where
  unfoldable pub run_replay : List (MarketSnapshot F) → String → Bool → Raises (ReplayResult F)
  run_replay snapshots data_origin strict = do
    replayed ← replay_signals uuid5 config sha256 snapshots strict
    let signals = replayed.0
    let outcomes = build_outcomes config signals (sorted_by time_le snapshots)
    ok (record {
      date_from = bound_date ltb signals;
      date_to = bound_date (λ d e. ltb e d) signals;
      instrument = instrument_of config snapshots;
      signals = signals;
      outcomes = outcomes;
      metrics = compute_metrics mean median signals outcomes config data_origin;
      replay_hash = replayed.1;
      ordering = replayed.2;
    })
