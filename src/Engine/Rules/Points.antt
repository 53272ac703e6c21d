-- ===== src/Engine/Rules/Points.antt =====
-- The points of the rules (backend/engines/rule_engine.py and score_engine.py): the two sides mirror
-- one another, and the score lies between 0 and the sum of the weights.
use theta_plus.Base.{◌≡◌, Bool, String, List, [], ◌∷◌, map, arith, All}
use theta_plus.Base.Int.{ℤ, pos, ◌+ℤ◌, ◌≤ℤ◌, int_laws}
use theta_plus.Base.Float.{Float, Format}
use theta_plus.Config.{AppConfig, WeightsConfig}
use theta_plus.Market.{TrendState, Direction, MarketFeatures}
use theta_plus.Engine.Models.{Side, RuleResult}
use theta_plus.Engine.Rules.Parts.{result}
use theta_plus.Engine.Rules.Ce.{evaluate_ce_rules}
use theta_plus.Engine.Rules.Pe.{evaluate_pe_rules}
use theta_plus.Engine.Score.{score_rules}

abbrev mirror_trend : TrendState → TrendState
mirror_trend TrendState.up = TrendState.down
mirror_trend TrendState.down = TrendState.up
mirror_trend t = t

abbrev mirror_direction : Direction → Direction
mirror_direction Direction.up = Direction.down
mirror_direction Direction.down = Direction.up
mirror_direction d = d

-- The market seen from the other side: trends turned, calls and puts exchanged.
abbrev pub mirror : {F : Type 0} → MarketFeatures F → MarketFeatures F
mirror f =
    let pcr = f.pcr in
    let oi = f.oi in
    let vwap = f.vwap in
    let price = f.price in
    record f {
      pcr = record pcr {
        pcr_trend = mirror_trend pcr.pcr_trend;
        atm_put_oi = pcr.atm_call_oi;
        atm_call_oi = pcr.atm_put_oi;
      };
      oi = record oi {
        call_oi = oi.put_oi;
        put_oi = oi.call_oi;
        call_oi_change = oi.put_oi_change;
        put_oi_change = oi.call_oi_change;
      };
      vwap = record vwap { above_vwap = vwap.below_vwap; below_vwap = vwap.above_vwap };
      price = record price { short_term_direction = mirror_direction price.short_term_direction };
    }

-- What a rule says, without its texts and its side.
abbrev pub points :
    RuleResult → record { rule_id : String; available : Bool; passed : Bool; score : ℤ; max : ℤ }
points r = record {
  rule_id = r.rule_id;
  available = r.available;
  passed = r.passed;
  score = r.score_awarded;
  max = r.max_score;
}

pub record NonNegative (w : WeightsConfig) : Type 0 where
  pub pcr_trend : pos 0 ≤ℤ w.pcr_trend
  pub vwap : pos 0 ≤ℤ w.vwap
  pub oi_support : pos 0 ≤ℤ w.oi_support
  pub oi_change : pos 0 ≤ℤ w.oi_change
  pub atm_proximity : pos 0 ≤ℤ w.atm_proximity
  pub price_confirmation : pos 0 ≤ℤ w.price_confirmation

-- The sum that `config_from_mapping` holds to 100.
abbrev pub total : WeightsConfig → ℤ
total w =
    w.pcr_trend +ℤ w.vwap +ℤ w.oi_support +ℤ w.oi_change +ℤ w.atm_proximity +ℤ w.price_confirmation

abbrev IsFair : RuleResult → Type 0
IsFair r = (pos 0 ≤ℤ r.score_awarded) × (r.score_awarded ≤ℤ r.max_score)

result-IsFair :
    (rule_id : String) (side : Side) (w : ℤ) (available passed : Bool) (observed reason : String)
    → pos 0 ≤ℤ w
    → IsFair (result rule_id side w available passed observed reason)
unfolding result
result-IsFair rule_id side w available passed observed reason h = ground arith

-- Fair rules have a fair sum.
score_rules-IsFair :
    (rules : List RuleResult)
    → All IsFair rules
    → (pos 0 ≤ℤ (score_rules rules).0) × ((score_rules rules).0 ≤ℤ (score_rules rules).1)
unfolding score_rules
score_rules-IsFair [] h = (omega arith, omega arith)
score_rules-IsFair (r ∷ rs) h =
    let (low, high) = score_rules-IsFair rs h.1 in (omega int_laws, omega int_laws)

module _ {F : Type 0} ⦃fl : Float F⦄ ⦃fm : Format F⦄ (f : MarketFeatures F)
    (config : AppConfig F) where
  -- The put rules give in a market, rule by rule, the points and availability that the call rules
  -- give in the mirrored market.
  pub evaluate_pe_rules-mirror :
      map points (evaluate_pe_rules f config) ≡ map points (evaluate_ce_rules (mirror f) config)
  unfolding evaluate_pe_rules evaluate_ce_rules
  evaluate_pe_rules-mirror = ground arith

  evaluate_ce_rules-IsFair : NonNegative config.weights → All IsFair (evaluate_ce_rules f config)
  unfolding evaluate_ce_rules
  evaluate_ce_rules-IsFair h = ground arith

  evaluate_pe_rules-IsFair : NonNegative config.weights → All IsFair (evaluate_pe_rules f config)
  unfolding evaluate_pe_rules
  evaluate_pe_rules-IsFair h = ground arith

  max_ce_rules : (score_rules (evaluate_ce_rules f config)).1 ≡ total config.weights
  unfolding score_rules evaluate_ce_rules
  max_ce_rules = omega int_laws

  max_pe_rules : (score_rules (evaluate_pe_rules f config)).1 ≡ total config.weights
  unfolding score_rules evaluate_pe_rules
  max_pe_rules = omega int_laws

  -- With weights of 0 or more, the score of each side lies between 0 and its maximum, and the
  -- maximum is the sum of the six weights, however many rules are unavailable.
  pub score_rules_bounds :
      NonNegative config.weights
      → let (ce_score, ce_max) = score_rules (evaluate_ce_rules f config) in
        let (pe_score, pe_max) = score_rules (evaluate_pe_rules f config) in
        (pos 0 ≤ℤ ce_score)
        × (ce_score ≤ℤ ce_max)
        × (ce_max ≡ total config.weights)
        × (pos 0 ≤ℤ pe_score)
        × (pe_score ≤ℤ pe_max)
        × (pe_max ≡ total config.weights)
  score_rules_bounds h =
      let (ce_low, ce_high) = score_rules-IsFair _ (evaluate_ce_rules-IsFair h) in
      let (pe_low, pe_high) = score_rules-IsFair _ (evaluate_pe_rules-IsFair h) in
      (ce_low, ce_high, max_ce_rules, pe_low, pe_high, max_pe_rules)
