-- ===== src/Engine/Rules/Parts.antt =====
-- backend/engines/rule_engine.py: what the rules of both sides share.
use Prim.Native.String.{◌++◌}
use theta_plus.Base.{Bool, true, false, ◌&&◌, Option, none, some, String, if◌then◌else◌, or_else}
use theta_plus.Base.Int.{ℤ, pos, leb_ℤ}
use theta_plus.Base.Float.{Float, Format, f_lt}
use theta_plus.Config.{AppConfig}
use theta_plus.Market.{TrendState, Direction, OptionQuote, MarketFeatures}
use theta_plus.Engine.Models.{Side, RuleResult}

-- `_result`: points only for evidence that is available and passed.
unfoldable pub result : String → Side → ℤ → Bool → Bool → String → String → RuleResult
result rule_id side max_score available passed observed reason = record {
  rule_id = rule_id;
  side = side;
  passed = available && passed;
  available = available;
  score_awarded = if available && passed then max_score else pos 0;
  max_score = max_score;
  observed_value = observed;
  reason = reason;
}

abbrev pub trend_text : TrendState → String
trend_text TrendState.up = "UP"
trend_text TrendState.down = "DOWN"
trend_text TrendState.flat = "FLAT"
trend_text TrendState.insufficient_data = "INSUFFICIENT_DATA"

-- `trend in (TREND_UP, TREND_DOWN, TREND_FLAT)`
abbrev pub trend_known : TrendState → Bool
trend_known TrendState.insufficient_data = false
trend_known _ = true

abbrev pub trend_is_up : TrendState → Bool
trend_is_up TrendState.up = true
trend_is_up _ = false

abbrev pub trend_is_down : TrendState → Bool
trend_is_down TrendState.down = true
trend_is_down _ = false

abbrev pub direction_text : Direction → String
direction_text Direction.up = "UP"
direction_text Direction.down = "DOWN"
direction_text Direction.flat = "FLAT"

abbrev pub direction_is_up : Direction → Bool
direction_is_up Direction.up = true
direction_is_up _ = false

abbrev pub direction_is_down : Direction → Bool
direction_is_down Direction.down = true
direction_is_down _ = false

-- `s or t` for texts
abbrev pub text_or : String → String → String
text_or String.[] t = t
text_or (String.◌∷◌ c s) t = String.◌∷◌ c s

-- `a is not None and b is not None and b >= a`
abbrev pub at_least : Option ℤ → Option ℤ → Bool
at_least (some a) (some b) = leb_ℤ a b
at_least _ _ = false

module _ {F : Type 0} ⦃fl : Float F⦄ where
  -- The ATM quotes exist and both have a positive price.
  abbrev pub quotes_ok : Option (OptionQuote F) → Option (OptionQuote F) → Bool
  quotes_ok (some a) (some b) = f_lt fl.nought a.ltp && f_lt fl.nought b.ltp
  quotes_ok _ _ = false

-- `_fmt_int`
abbrev pub fmt_int : {F : Type 0} → Format F → Option ℤ → String
fmt_int fm none = "n/a"
fmt_int fm (some v) = fm.signed v

module _ {F : Type 0} ⦃fm : Format F⦄ where
  -- `_fmt`
  abbrev pub fmt : Option F → String
  fmt none = "n/a"
  fmt (some v) = fm.fixed2 v

  abbrev pub observed_quotes : ℤ → Option (OptionQuote F) → Option (OptionQuote F) → String
  observed_quotes strike (some a) (some b) =
      "ATM " ++ fm.int strike ++ ": CE LTP " ++ fm.fixed2 a.ltp ++ " / PE LTP " ++ fm.fixed2 b.ltp
  observed_quotes strike _ _ = "ATM " ++ fm.int strike ++ ": quotes missing"

module _ {F : Type 0} ⦃fl : Float F⦄ ⦃fm : Format F⦄ (f : MarketFeatures F)
    (config : AppConfig F) where
  abbrev pub observed_pcr : String
  observed_pcr = "PCR trend " ++ trend_text f.pcr.pcr_trend ++ ", total PCR " ++ fmt f.pcr.total_pcr

  abbrev pub observed_vwap : String
  observed_vwap =
      "reference "
      ++ fmt (some (or_else f.vwap.reference_price f.spot))
      ++ " vs VWAP "
      ++ fmt f.vwap.vwap
      ++ " (distance "
      ++ fmt f.vwap.distance
      ++ ")"

  abbrev pub observed_price : String
  observed_price =
      "short-term direction "
      ++ direction_text f.price.short_term_direction
      ++ ", structure "
      ++ f.price.structure_state

  -- The ATM rule is the same for both sides.
  abbrev pub atm_rule : Side → RuleResult
  atm_rule side =
      let atm = f.atm in
      let atm_ok = atm.valid && quotes_ok atm.atm_ce atm.atm_pe in
      let observed = observed_quotes atm.atm_strike atm.atm_ce atm.atm_pe in
      result "ATM_DATA_VALID" side config.weights.atm_proximity true atm_ok observed (
        if atm_ok
        then "ATM option data valid (" ++ observed ++ ")"
        else "ATM/option data invalid: " ++ atm.reason)
