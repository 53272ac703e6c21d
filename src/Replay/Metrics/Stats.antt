-- ===== src/Replay/Metrics/Stats.antt =====
-- backend/models/replay_models.py: what the metrics of a replay hold.
use theta_plus.Base.{ℕ, Option, String, List}

pub record SegmentStats (F : Type 0) : Type 0 where
  pub label : String
  pub signals : ℕ
  pub ce_signals : ℕ
  pub pe_signals : ℕ
  pub target : ℕ
  pub stoploss : ℕ
  pub ambiguous : ℕ
  pub invalidated : ℕ
  pub expired : ℕ
  pub no_data : ℕ
  pub avg_mfe : Option F
  pub avg_mae : Option F

pub record DataQualityStats : Type 0 where
  pub total_snapshots : ℕ
  pub valid_snapshots : ℕ
  pub invalid_snapshots : ℕ
  pub stale_snapshots : ℕ
  pub missing_option_data : ℕ
  pub missing_vwap_data : ℕ
  pub signals_suppressed_by_data : ℕ

pub record CostAssumptions (F : Type 0) : Type 0 where
  pub brokerage_per_trade : F
  pub slippage_points : F
  pub charges : F
  pub quantity : ℕ
  pub label : String

pub record ReplayMetrics (F : Type 0) : Type 0 where
  pub total_evaluations : ℕ
  pub total_signals : ℕ
  pub ce_signals : ℕ
  pub pe_signals : ℕ
  pub wait_decisions : ℕ
  pub invalidation_decisions : ℕ
  pub target : ℕ
  pub stoploss : ℕ
  pub invalidated : ℕ
  pub expired : ℕ
  pub ambiguous : ℕ
  pub no_data : ℕ
  pub avg_mfe : Option F
  pub avg_mae : Option F
  pub median_mfe : Option F
  pub median_mae : Option F
  pub avg_time_to_target_seconds : Option F
  pub avg_time_to_stop_seconds : Option F
  pub gross_points_total : Option F
  pub resolved_outcomes : ℕ
  pub target_rate_of_resolved : Option F
  pub stop_rate_of_resolved : Option F
  pub by_side : List (SegmentStats F)
  pub by_time_window : List (SegmentStats F)
  pub by_pcr_regime : List (SegmentStats F)
  pub by_vwap_regime : List (SegmentStats F)
  pub data_quality : DataQualityStats
  pub costs : CostAssumptions F
  pub strategy_version : String
  pub feature_engine_version : String
  pub data_origin : String
