-- ===== src/Market.antt =====
-- backend/models/market_models.py and backend/models/feature_models.py: the market data and the
-- features that the engines read.
use theta_plus.Base.{Bool, Option, String, List}
use theta_plus.Base.Int.{ℤ}
use theta_plus.Base.Dict.{Dict}
use theta_plus.Clock.{Timestamp}

pub data HealthCode : Type 0 where
  healthy stale invalid missing incomplete : HealthCode

-- `HealthCode.value`
unfoldable pub health_text : HealthCode → String
health_text healthy = "OK"
health_text stale = "STALE"
health_text invalid = "INVALID"
health_text missing = "MISSING"
health_text incomplete = "INCOMPLETE"

pub data TrendState : Type 0 where
  up down flat insufficient_data : TrendState

pub data Direction : Type 0 where
  up down flat : Direction

pub record OptionQuote (F : Type 0) : Type 0 where
  pub ltp : F
  pub oi : ℤ
  pub oi_change : ℤ
  pub volume : ℤ

pub record OptionChainRow (F : Type 0) : Type 0 where
  pub strike : ℤ
  pub ce : OptionQuote F
  pub pe : OptionQuote F

pub record OptionChain (F : Type 0) : Type 0 where
  pub symbol : String
  pub timestamp : Timestamp
  pub expiry : String
  pub strike_interval : ℤ
  pub rows : List (OptionChainRow F)

pub record InstrumentTick (F : Type 0) : Type 0 where
  pub timestamp : Timestamp
  pub symbol : String
  pub opening : F
  pub high : F
  pub low : F
  pub close : F
  pub volume : ℤ

pub record MarketSnapshot (F : Type 0) : Type 0 where
  pub snapshot_id : String
  pub timestamp : Timestamp
  pub instrument : String
  pub tick : InstrumentTick F
  pub chain : OptionChain F

pub record DataHealth (F : Type 0) : Type 0 where
  pub status : HealthCode
  pub age_seconds : F
  pub checks : Dict String
  pub details : List String

pub record AtmFeatures (F : Type 0) : Type 0 where
  pub atm_strike : ℤ
  pub strike_interval : ℤ
  pub strikes : List ℤ
  pub atm_ce : Option (OptionQuote F)
  pub atm_pe : Option (OptionQuote F)
  pub valid : Bool
  pub reason : String

pub record PcrFeatures (F : Type 0) : Type 0 where
  pub total_put_oi : ℤ
  pub total_call_oi : ℤ
  pub total_pcr : Option F
  pub atm_put_oi : ℤ
  pub atm_call_oi : ℤ
  pub atm_pcr : Option F
  pub pcr_change : Option F
  pub pcr_trend : TrendState
  pub quality : String
  pub valid : Bool
  pub reason : String

pub record OiFeatures : Type 0 where
  pub call_oi : ℤ
  pub put_oi : ℤ
  pub call_oi_change : Option ℤ
  pub put_oi_change : Option ℤ
  pub call_interpretation : String
  pub put_interpretation : String
  pub valid : Bool
  pub reason : String

pub record VwapFeatures (F : Type 0) : Type 0 where
  pub vwap : Option F
  pub source : String
  pub reference_price : Option F
  pub distance : Option F
  pub distance_percent : Option F
  pub above_vwap : Bool
  pub below_vwap : Bool
  pub valid : Bool
  pub reason : String

pub record PriceFeatures (F : Type 0) : Type 0 where
  pub short_term_direction : Direction
  pub recent_high : Option F
  pub recent_low : Option F
  pub structure_state : String
  pub available : Bool
  pub reason : String

pub record MarketFeatures (F : Type 0) : Type 0 where
  pub symbol : String
  pub expiry : String
  pub timestamp : Timestamp
  pub spot : F
  pub atm : AtmFeatures F
  pub pcr : PcrFeatures F
  pub oi : OiFeatures
  pub vwap : VwapFeatures F
  pub price : PriceFeatures F
  pub data_health : DataHealth F
  pub feature_engine_version : String
