-- ===== src/Replay/Metrics.antt =====
-- backend/replay/metrics.py: `compute_metrics`. The functions `mean` and `median` of the standard
-- library are parameters; they are called on lists that are not empty.
pub mod Stats
pub use Stats.*
use theta_plus.Base.{
  ℕ, ◌+◌, Bool, true, false, not, ◌&&◌, Option, none, some, String, List, [], ◌∷◌, if◌then◌else◌,
  ltb, leb, ◌==◌, is_some, elem, length, select, map,
}
use theta_plus.Base.Int.{ℤ, pos}
use theta_plus.Base.Float.{Float}
use theta_plus.Clock.{time_of}
use theta_plus.Config.{AppConfig, TimeWindow, parse_hhmm}
use theta_plus.Market.{HealthCode, healthy, stale, invalid, incomplete, TrendState}
use theta_plus.Engine.Models.{Decision, ce_setup, pe_setup, waiting, is_setup, is_invalidation}
use theta_plus.Replay.Models.{
  ReplaySignal, SignalOutcome, OutcomeState, target, stoploss, invalidated, expired, ambiguous,
  no_data,
}

abbrev pub is_exit_state : OutcomeState → OutcomeState → Bool
is_exit_state target target = true
is_exit_state stoploss stoploss = true
is_exit_state invalidated invalidated = true
is_exit_state expired expired = true
is_exit_state ambiguous ambiguous = true
is_exit_state no_data no_data = true
is_exit_state _ _ = false

abbrev pub is_ce : Decision → Bool
is_ce ce_setup = true
is_ce _ = false

abbrev pub is_pe : Decision → Bool
is_pe pe_setup = true
is_pe _ = false

abbrev pub is_wait : Decision → Bool
is_wait waiting = true
is_wait _ = false

abbrev pub is_health : HealthCode → HealthCode → Bool
is_health healthy healthy = true
is_health stale stale = true
is_health invalid invalid = true
is_health incomplete incomplete = true
is_health _ _ = false

abbrev is_trend : TrendState → TrendState → Bool
is_trend TrendState.up TrendState.up = true
is_trend TrendState.down TrendState.down = true
is_trend TrendState.flat TrendState.flat = true
is_trend _ _ = false

-- `[x for x in xs if x is not None]`
abbrev pub known : {A : Type 0} → List (Option A) → List A
known [] = []
known (none ∷ xs) = known xs
known (some x ∷ xs) = x ∷ known xs

module _ {F : Type 0} where
  -- `sum(1 for s in signals if test(s))`
  abbrev pub tally : (ReplaySignal F → Bool) → List (ReplaySignal F) → ℕ
  tally test signals = length (select test signals)

  abbrev pub exits : OutcomeState → List (SignalOutcome F) → ℕ
  exits state outcomes = length (select (λ o. is_exit_state o.exit_state state) outcomes)

  -- The outcomes of the signals.
  abbrev pub outcomes_of : List (ReplaySignal F) → List (SignalOutcome F) → List (SignalOutcome F)
  outcomes_of signals outcomes =
      select (λ o. elem o.signal_id (map (λ (s : ReplaySignal F). s.signal_id) signals)) outcomes

  abbrev quality_of : List (ReplaySignal F) → DataQualityStats
  quality_of signals = record {
    total_snapshots = length signals;
    valid_snapshots = tally (λ s. is_health s.data_health healthy) signals;
    invalid_snapshots = tally (λ s. is_health s.data_health invalid) signals;
    stale_snapshots = tally (λ s. is_health s.data_health stale) signals;
    missing_option_data = tally (λ s. is_health s.data_health incomplete) signals;
    missing_vwap_data = tally (λ s. not (is_some s.vwap)) signals;
    signals_suppressed_by_data =
        tally (λ s. is_wait s.decision && not (is_health s.data_health healthy)) signals;
  }

  abbrev pub in_window : TimeWindow → ReplaySignal F → Bool
  in_window w s =
      leb (parse_hhmm w.start) (time_of s.timestamp) && ltb (time_of s.timestamp) (parse_hhmm w.end)

module _ {F : Type 0} ⦃fl : Float F⦄ (mean median : List F → F) where
  -- `_avg` and `_median`
  abbrev summarised : (List F → F) → List F → Option F
  summarised f [] = none
  summarised f (x ∷ xs) = some (fl.round4 (f (x ∷ xs)))

  abbrev seconds : ℤ → F
  seconds t = fl.int_div t (pos 1_000_000)

  -- `round(sum(values), 2) if values else None`
  abbrev total_of : F → List F → F
  total_of sum [] = sum
  total_of sum (x ∷ xs) = total_of (fl.add sum x) xs

  abbrev rounded_sum : List F → Option F
  rounded_sum [] = none
  rounded_sum (x ∷ xs) = some (fl.round2 (total_of fl.nought (x ∷ xs)))

  abbrev rate : ℕ → ℕ → Option F
  rate n resolved =
      if resolved == 0 then none else some (fl.round4 (fl.int_div (pos n) (pos resolved)))

  unfoldable pub segment : String → List (ReplaySignal F) → List (SignalOutcome F) → SegmentStats F
  segment label signals outcomes =
      let seg_out = outcomes_of signals outcomes in
      record {
        label = label;
        signals = length signals;
        ce_signals = tally (λ s. is_ce s.decision) signals;
        pe_signals = tally (λ s. is_pe s.decision) signals;
        target = exits target seg_out;
        stoploss = exits stoploss seg_out;
        ambiguous = exits ambiguous seg_out;
        invalidated = exits invalidated seg_out;
        expired = exits expired seg_out;
        no_data = exits no_data seg_out;
        avg_mfe = summarised mean (known (map (λ (o : SignalOutcome F). o.mfe) seg_out));
        avg_mae = summarised mean (known (map (λ (o : SignalOutcome F). o.mae) seg_out));
      }

  abbrev window_segments :
      List (ReplaySignal F) → List (SignalOutcome F) → List TimeWindow → List (SegmentStats F)
  window_segments signals outcomes [] = []
  window_segments signals outcomes (w ∷ windows) =
      segment w.text (select (in_window w) signals) outcomes
      ∷ window_segments signals outcomes windows

  -- `abs(s.spot - s.vwap) <= near`, or its negation, where both are known.
  abbrev gap_is : (F → Bool) → ReplaySignal F → Bool
  gap_is test s = elim s.vwap [
    | none ↦ false
    | some vwap ↦ elim s.spot [ none ↦ false | some spot ↦ test (fl.abs (fl.sub spot vwap)) ]
  ]

  abbrev is_near : F → ReplaySignal F → Bool
  is_near near = gap_is (λ gap. fl.le gap near)

  abbrev is_far : F → ReplaySignal F → Bool
  is_far near = gap_is (λ gap. fl.lt near gap)

  abbrev costs_of : AppConfig F → CostAssumptions F
  costs_of config = record {
    brokerage_per_trade = config.backtest_brokerage_per_trade;
    slippage_points = config.backtest_slippage_points;
    charges = config.backtest_charges;
    quantity = config.backtest_quantity;
    label =
        if fl.eq config.backtest_brokerage_per_trade fl.nought
          && fl.eq config.backtest_slippage_points fl.nought
          && fl.eq config.backtest_charges fl.nought
        then "HYPOTHETICAL: no brokerage/slippage/charges assumed; gross points only"
        else "cost-adjusted using the configured research assumptions";
  }

  unfoldable pub compute_metrics :
      List (ReplaySignal F) → List (SignalOutcome F) → AppConfig F → String → ReplayMetrics F
  compute_metrics signals outcomes config data_origin =
      let setups = select (λ s. is_setup s.decision) signals in
      let ce = select (λ s. is_ce s.decision) setups in
      let pe = select (λ s. is_pe s.decision) setups in
      let mfes = known (map (λ (o : SignalOutcome F). o.mfe) outcomes) in
      let maes = known (map (λ (o : SignalOutcome F). o.mae) outcomes) in
      let t_target = known (map (λ (o : SignalOutcome F). o.time_to_target) outcomes) in
      let t_stop = known (map (λ (o : SignalOutcome F). o.time_to_stop) outcomes) in
      let resolved = exits target outcomes + exits stoploss outcomes in
      let of_setups = λ (label : String) (test : ReplaySignal F → Bool).
        segment label (select test setups) outcomes in
      let near = config.vwap_near_points in
      record {
        total_evaluations = length signals;
        total_signals = length setups;
        ce_signals = length ce;
        pe_signals = length pe;
        wait_decisions = tally (λ s. is_wait s.decision) signals;
        invalidation_decisions = tally (λ s. is_invalidation s.decision) signals;
        target = exits target outcomes;
        stoploss = exits stoploss outcomes;
        invalidated = exits invalidated outcomes;
        expired = exits expired outcomes;
        ambiguous = exits ambiguous outcomes;
        no_data = exits no_data outcomes;
        avg_mfe = summarised mean mfes;
        avg_mae = summarised mean maes;
        median_mfe = summarised median mfes;
        median_mae = summarised median maes;
        avg_time_to_target_seconds = summarised mean (map seconds t_target);
        avg_time_to_stop_seconds = summarised mean (map seconds t_stop);
        gross_points_total =
            rounded_sum (known (map (λ (o : SignalOutcome F). o.gross_points) outcomes));
        resolved_outcomes = resolved;
        target_rate_of_resolved = rate (exits target outcomes) resolved;
        stop_rate_of_resolved = rate (exits stoploss outcomes) resolved;
        by_side = segment "CE" ce outcomes ∷ segment "PE" pe outcomes ∷ [];
        by_time_window = window_segments setups outcomes config.backtest_time_windows;
        by_pcr_regime =
            of_setups "PCR rising" (λ s. is_trend s.pcr_trend TrendState.up)
            ∷ of_setups "PCR falling" (λ s. is_trend s.pcr_trend TrendState.down)
            ∷ of_setups "PCR flat" (λ s. is_trend s.pcr_trend TrendState.flat)
            ∷ [];
        by_vwap_regime =
            of_setups "above VWAP" (λ s. s.above_vwap)
            ∷ of_setups "below VWAP" (λ s. s.below_vwap)
            ∷ of_setups "near VWAP" (is_near near)
            ∷ of_setups "far from VWAP" (is_far near)
            ∷ [];
        data_quality = quality_of signals;
        costs = costs_of config;
        strategy_version = config.strategy_version;
        feature_engine_version = config.feature_engine_version;
        data_origin = data_origin;
      }
