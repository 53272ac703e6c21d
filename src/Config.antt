-- ===== src/Config.antt =====
-- backend/lib/config.py: the validated configuration. A field whose validator admits a few words
-- has an enumeration for its type, a field that is validated to be a count has ℕ.
use theta_plus.Base.{ℕ, ◌*◌, Bool, String, List}
use theta_plus.Base.Int.{ℤ}
use theta_plus.Clock.{minute}

-- A field "HH:MM" that `parse_hhmm` accepts: the text, and the minutes that it stands for.
pub record HhMm : Type 0 where
  pub text : String
  pub minutes : ℕ

abbrev pub parse_hhmm : HhMm → ℕ
parse_hhmm t = t.minutes * minute

pub data Mode : Type 0 where
  research paper live : Mode

-- A window "HH:MM-HH:MM" whose two times parse; no validator sees to it, and another one would raise
-- when the metrics are computed.
pub record TimeWindow : Type 0 where
  pub text : String
  pub start : HhMm
  pub end : HhMm

pub data OrderType : Type 0 where
  limit market stop_loss stop_loss_market : OrderType

pub data ProductType : Type 0 where
  cnc intraday margin mtf co bo : ProductType

pub data Validity : Type 0 where
  day ioc : Validity

pub record WeightsConfig : Type 0 where
  pub pcr_trend : ℤ
  pub vwap : ℤ
  pub oi_support : ℤ
  pub oi_change : ℤ
  pub atm_proximity : ℤ
  pub price_confirmation : ℤ

pub record InvalidationConfig (F : Type 0) : Type 0 where
  pub vwap_cross : Bool
  pub pcr_reversal : Bool
  pub pcr_reversal_delta : F

-- The fields that the signal engine, the paper book and the execution service read.
pub record AppConfig (F : Type 0) : Type 0 where
  pub config_version : String
  pub strategy_version : String
  pub feature_engine_version : String
  pub enabled : Bool
  pub market_close : HhMm
  pub signal_start_time : HhMm
  pub signal_end_time : HhMm
  pub signal_end_inclusive : Bool
  pub strike_interval : ℕ
  pub atm_range : ℕ
  pub pcr_lookback : ℕ
  pub max_data_age_seconds : ℕ
  pub pcr_flat_band : F
  pub price_lookback : ℕ
  pub price_flat_band_pct : F
  pub minimum_score : ℤ
  pub signal_cooldown_minutes : ℕ
  pub target_points : ℕ
  pub stoploss_points : ℕ
  pub replay_include_pre_signal_data : Bool
  pub replay_strict_ordering : Bool
  pub vwap_near_points : F
  pub instrument : String
  pub backtest_brokerage_per_trade : F
  pub backtest_slippage_points : F
  pub backtest_charges : F
  pub backtest_quantity : ℕ
  pub backtest_time_windows : List TimeWindow
  pub weights : WeightsConfig
  pub invalidation : InvalidationConfig F
  pub system_mode : Mode
  pub paper_trading_enabled : Bool
  pub max_open_paper_positions : ℕ
  pub paper_quantity : ℕ
  pub paper_slippage_points : F
  pub paper_costs_per_trade : F
  pub live_execution_enabled : Bool
  pub live_execution_armed : Bool
  pub live_quantity : ℕ
  pub live_order_type : OrderType
  pub live_product_type : ProductType
  pub live_validity : Validity
  pub risk_enabled : Bool
  pub risk_max_trades_per_day : ℕ
  pub risk_max_open_positions : ℕ
  pub risk_max_quantity : ℕ
  pub risk_max_daily_loss : F
  pub risk_max_slippage_points : F
