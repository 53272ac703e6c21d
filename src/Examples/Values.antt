-- ===== src/Examples/Values.antt =====
-- Test data: prices in hundredths with NaN and the infinities, a configuration, a market that
-- confirms a call, and a broker that fills every order.
use theta_plus.Base.{◌+◌, ◌*◌, ◌/◌, Bool, true, false, none, some, [], ◌∷◌, if◌then◌else◌, str_eq}
use theta_plus.Base.Int.{ℤ, pos, ltb_ℤ, eq_ℤ, ◌+ℤ◌, ◌-ℤ◌, ◌*ℤ◌, magnitude}
use theta_plus.Base.Float.{Float, Format}
use theta_plus.Base.Raises.{Raises, ok, raised, value_error}
use theta_plus.Clock.{Timestamp, minute, day}
use theta_plus.Config
use theta_plus.Config.{AppConfig, live, limit, intraday}
use theta_plus.Market
use theta_plus.Market.{MarketFeatures, HealthCode}
use theta_plus.Execution.Models.{BrokerOrderState, InstrumentRef}
use theta_plus.Execution.Service.State.{Setting}

pub data Num : Type 0 where
  nan minus_infinite infinite : Num
  cents : ℤ → Num

abbrev lt_num : Num → Num → Bool
lt_num minus_infinite infinite = true
lt_num minus_infinite (cents _) = true
lt_num (cents _) infinite = true
lt_num (cents a) (cents b) = ltb_ℤ a b
lt_num _ _ = false

abbrev eq_num : Num → Num → Bool
eq_num minus_infinite minus_infinite = true
eq_num infinite infinite = true
eq_num (cents a) (cents b) = eq_ℤ a b
eq_num _ _ = false

abbrev le_num : Num → Num → Bool
le_num a b = if lt_num a b then true else eq_num a b

abbrev neg_num : Num → Num
neg_num nan = nan
neg_num minus_infinite = infinite
neg_num infinite = minus_infinite
neg_num (cents a) = cents (pos 0 -ℤ a)

abbrev abs_num : Num → Num
abs_num minus_infinite = infinite
abs_num (cents a) = cents (pos (magnitude a))
abs_num n = n

-- Sums of the finite values; the tests add nothing else.
abbrev add_num : Num → Num → Num
add_num (cents a) (cents b) = cents (a +ℤ b)
add_num _ _ = nan

-- Quotients and products of positive values, and their whole part; the tests have no other.
abbrev div_num : Num → Num → Num
div_num (cents (pos a)) (cents (pos b)) = cents (pos (100 * a / b))
div_num _ _ = nan

abbrev mul_num : Num → Num → Num
mul_num (cents (pos a)) (cents (pos b)) = cents (pos (a * b / 100))
mul_num _ _ = nan

abbrev floor_num : Num → Raises ℤ
floor_num (cents (pos a)) = ok (pos (a / 100))
floor_num _ = raised value_error

instance abbrev pub cents_Float : Float Num
cents_Float = record {
  nought = cents (pos 0);
  infinity = infinite;
  minus_infinity = minus_infinite;
  lt = lt_num;
  le = le_num;
  eq = eq_num;
  add = add_num;
  sub = λ a b. add_num a (neg_num b);
  mul = mul_num;
  neg = neg_num;
  abs = abs_num;
  round2 = λ a. a;
  round4 = λ a. a;
  div = div_num;
  int_div = λ a b. div_num (cents a) (cents b);
  floor = floor_num;
  of_int = λ n. cents (pos 100 *ℤ n);
}

-- One word stands for every number; the one expiry date of the tests is day 20.
instance abbrev pub plain_Format : Format Num
plain_Format = record {
  fixed2 = λ _. "n";
  plain = λ _. "n";
  signed3 = λ _. "n";
  whole = λ _. "n";
  int = λ _. "n";
  grouped = λ _. "n";
  signed = λ _. "n";
  strip = λ s. s;
  isoformat = λ _. "t";
  fromisoformat = λ s. if str_eq s "1970-01-21" then some 20 else none;
}

abbrev pub ten_o_clock : Timestamp
ten_o_clock = 15 * day + 600 * minute

abbrev pub config : AppConfig Num
config = record {
  config_version = "1";
  strategy_version = "1";
  feature_engine_version = "1";
  enabled = true;
  market_close = record { text = "15:30"; minutes = 930 };
  signal_start_time = record { text = "09:30"; minutes = 570 };
  signal_end_time = record { text = "15:00"; minutes = 900 };
  signal_end_inclusive = true;
  strike_interval = 50;
  atm_range = 1;
  pcr_lookback = 3;
  max_data_age_seconds = 60;
  pcr_flat_band = cents (pos 2);
  price_lookback = 5;
  price_flat_band_pct = cents (pos 1);
  minimum_score = pos 70;
  signal_cooldown_minutes = 15;
  target_points = 20;
  stoploss_points = 10;
  replay_include_pre_signal_data = true;
  replay_strict_ordering = false;
  vwap_near_points = cents (pos 1000);
  instrument = "NIFTY";
  backtest_brokerage_per_trade = cents (pos 0);
  backtest_slippage_points = cents (pos 0);
  backtest_charges = cents (pos 0);
  backtest_quantity = 1;
  backtest_time_windows = [];
  weights = record {
    pcr_trend = pos 20;
    vwap = pos 20;
    oi_support = pos 15;
    oi_change = pos 15;
    atm_proximity = pos 10;
    price_confirmation = pos 20;
  };
  invalidation = record {
    vwap_cross = true;
    pcr_reversal = true;
    pcr_reversal_delta = cents (pos 15);
  };
  system_mode = live;
  paper_trading_enabled = true;
  max_open_paper_positions = 1;
  paper_quantity = 75;
  paper_slippage_points = cents (pos 50);
  paper_costs_per_trade = cents (pos 4000);
  live_execution_enabled = true;
  live_execution_armed = true;
  live_quantity = 75;
  live_order_type = limit;
  live_product_type = intraday;
  live_validity = Config.day;
  risk_enabled = true;
  risk_max_trades_per_day = 3;
  risk_max_open_positions = 1;
  risk_max_quantity = 75;
  risk_max_daily_loss = cents (pos 500000);
  risk_max_slippage_points = cents (pos 200);
}

abbrev pub quote : Market.OptionQuote Num
quote = record { ltp = cents (pos 12050); oi = pos 900; oi_change = pos 50; volume = pos 7 }

-- Every rule confirms a call, and none but the distance to the strike a put.
abbrev pub rising : MarketFeatures Num
rising = record {
  symbol = "NIFTY";
  expiry = "1970-01-21";
  timestamp = ten_o_clock;
  spot = cents (pos 2450500);
  atm = record {
    atm_strike = pos 24500;
    strike_interval = pos 50;
    strikes = pos 24450 ∷ pos 24500 ∷ pos 24550 ∷ [];
    atm_ce = some quote;
    atm_pe = some quote;
    valid = true;
    reason = "";
  };
  pcr = record {
    total_put_oi = pos 3600;
    total_call_oi = pos 3000;
    total_pcr = some (cents (pos 120));
    atm_put_oi = pos 1200;
    atm_call_oi = pos 1000;
    atm_pcr = some (cents (pos 120));
    pcr_change = none;
    pcr_trend = Market.TrendState.up;
    quality = "OK";
    valid = true;
    reason = "";
  };
  oi = record {
    call_oi = pos 1000;
    put_oi = pos 1200;
    call_oi_change = some (pos 10);
    put_oi_change = some (pos 30);
    call_interpretation = "";
    put_interpretation = "";
    valid = true;
    reason = "";
  };
  vwap = record {
    vwap = some (cents (pos 2440000));
    source = "ohlcv";
    reference_price = some (cents (pos 2450500));
    distance = some (cents (pos 10500));
    distance_percent = none;
    above_vwap = true;
    below_vwap = false;
    valid = true;
    reason = "";
  };
  price = record {
    short_term_direction = Market.Direction.up;
    recent_high = none;
    recent_low = none;
    structure_state = "UP";
    available = true;
    reason = "";
  };
  data_health = record {
    status = HealthCode.healthy;
    age_seconds = cents (pos 0);
    checks = [];
    details = [];
  };
  feature_engine_version = "1";
}

abbrev pub call_contract : InstrumentRef
call_contract = record {
  underlying = "NIFTY";
  exchange_segment = "NSE_FNO";
  security_id = "45001";
  expiry = "1970-01-21";
  strike = some (pos 24500);
  option_type = "CALL";
  lot_size = pos 75;
  tradable = true;
}

abbrev filled_state : BrokerOrderState Num
filled_state = record {
  broker_order_id = "B1";
  broker_status = "TRADED";
  filled_quantity = pos 75;
  remaining_quantity = pos 0;
  average_traded_price = some (cents (pos 12050));
  error_code = "";
}

-- A broker that fills every order, and a disk that always writes.
abbrev pub setting : Setting Num (Unit {0})
setting = record {
  config = config;
  instruments = call_contract ∷ [];
  env_live_enabled = true;
  env_live_armed = true;
  adapter_configured = true;
  adapter_is_dhan = false;
  journal_durable = true;
  namespace = "mock";
  digest = λ s. s;
  submit_order = λ order w. (ok (record { broker_order_id = "B1"; broker_status = "TRANSIT" }), w);
  get_order = λ id w. (ok filled_state, w);
  get_order_by_correlation = λ id w. (ok (some filled_state), w);
  get_positions = λ w. (
    ok (
        record {
          security_id = "45001";
          exchange_segment = "NSE_FNO";
          product_type = "INTRADAY";
          net_qty = pos 75;
        }
        ∷ []),
    w,
  );
  write = λ snap w. (ok tt, w);
}
