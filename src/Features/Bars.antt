-- ===== src/Features/Bars.antt =====
-- backend/engines/vwap_engine.py and price_engine.py: the features of a series of bars.
use Prim.Native.String.{◌++◌}
use theta_plus.Base.{
  ℕ, ◌-◌, Bool, true, false, not, ◌&&◌, ◌||◌, Option, none, some, String, List, [], ◌∷◌,
  if◌then◌else◌, ltb, leb, ◌==◌, length, drop, any, map,
}
use theta_plus.Base.Int.{pos}
use theta_plus.Base.Float.{Float, Format, f_max, f_min, is_finite}
use theta_plus.Market.{VwapFeatures, PriceFeatures, Direction}

pub record Bar (F : Type 0) : Type 0 where
  pub high : F
  pub low : F
  pub close : F
  pub volume : F
  pub source : String

module _ {F : Type 0} where
  abbrev pub last_bar : Bar F → List (Bar F) → Bar F
  last_bar b [] = b
  last_bar b (c ∷ cs) = last_bar c cs

module _ {F : Type 0} ⦃fl : Float F⦄ where
  unfoldable pub typical_price : Bar F → F
  typical_price bar = fl.div (fl.add (fl.add bar.high bar.low) bar.close) (fl.of_int (pos 3))

  -- The test that makes the whole series unusable.
  abbrev pub is_bad : Bar F → Bool
  is_bad b =
      not (is_finite b.high && is_finite b.low && is_finite b.close && is_finite b.volume)
      || fl.lt b.volume fl.nought
      || fl.le b.low fl.nought
      || fl.lt b.high b.low
      || not (fl.le b.low b.close && fl.le b.close b.high)

  -- `sum(...)` of floats, from the left
  abbrev sum_floats : F → List F → F
  sum_floats total [] = total
  sum_floats total (x ∷ xs) = sum_floats (fl.add total x) xs

  unfoldable pub compute_vwap : List (Bar F) → Option F
  compute_vwap bars =
      let total_volume = sum_floats fl.nought (map (λ b. b.volume) bars) in
      let total_pv = sum_floats fl.nought (map (λ b. fl.mul (typical_price b) b.volume) bars) in
      if length bars == 0
      then none
      else (if any is_bad bars
          then none
          else (if fl.le total_volume fl.nought
              then none
              else some (fl.round4 (fl.div total_pv total_volume))))

  abbrev no_vwap : VwapFeatures F
  no_vwap = record {
    vwap = none;
    source = "ohlcv";
    reference_price = none;
    distance = none;
    distance_percent = none;
    above_vwap = false;
    below_vwap = false;
    valid = false;
    reason = "VWAP unavailable: missing/invalid bars or no traded volume";
  }

  abbrev source_of : List (Bar F) → String
  source_of [] = "ohlcv"
  source_of (b ∷ bs) = (last_bar b bs).source

  abbrev vwap_at : F → List (Bar F) → Option F → VwapFeatures F
  vwap_at spot bars none = no_vwap
  vwap_at spot bars (some vwap) =
      let distance = fl.round4 (fl.sub spot vwap) in
      record {
        vwap = some vwap;
        source = source_of bars;
        reference_price = some spot;
        distance = some distance;
        distance_percent =
            (if fl.eq vwap fl.nought
              then none
              else some (fl.round4 (fl.mul (fl.div distance vwap) (fl.of_int (pos 100)))));
        above_vwap = fl.lt vwap spot;
        below_vwap = fl.lt spot vwap;
        valid = true;
        reason = "";
      }

  unfoldable pub vwap_features : F → List (Bar F) → VwapFeatures F
  vwap_features spot bars = vwap_at spot bars (compute_vwap bars)

  abbrev greatest : F → List (Bar F) → F
  greatest x [] = x
  greatest x (b ∷ bs) = greatest (f_max x b.high) bs

  abbrev least : F → List (Bar F) → F
  least x [] = x
  least x (b ∷ bs) = least (f_min x b.low) bs

  module _ ⦃fm : Format F⦄ where
    abbrev unavailable : List (Bar F) → PriceFeatures F
    unavailable bars = record {
      short_term_direction = Direction.flat;
      recent_high = none;
      recent_low = none;
      structure_state = "";
      available = false;
      reason =
          "insufficient bars for price structure ("
          ++ fm.int (pos (length bars))
          ++ " of 2 required)";
    }

    -- The features over a window, which is never empty.
    abbrev price_over : F → ℕ → F → List (Bar F) → List (Bar F) → PriceFeatures F
    price_over spot lookback flat_band_pct bars [] = unavailable bars
    price_over spot lookback flat_band_pct bars (b ∷ bs) =
        let pct =
          (if fl.eq b.close fl.nought
            then fl.nought
            else fl.mul (fl.sub (fl.div spot b.close) (fl.of_int (pos 1))) (fl.of_int (pos 100))) in
        let high = greatest b.high bs in
        let low = least b.low bs in
        record {
          short_term_direction =
              (if fl.lt flat_band_pct pct
                then Direction.up
                else (if fl.lt pct (fl.neg flat_band_pct) then Direction.down else Direction.flat));
          recent_high = some high;
          recent_low = some low;
          structure_state =
              (if fl.lt high spot
                then "BREAKOUT"
                else (if fl.lt spot low then "BREAKDOWN" else "WITHIN_RANGE"));
          available = true;
          reason =
              "spot "
              ++ fm.fixed2 spot
              ++ " vs close "
              ++ fm.fixed2 b.close
              ++ " "
              ++ fm.int (pos lookback)
              ++ " bars ago ("
              ++ fm.signed3 pct
              ++ "%)";
        }

    unfoldable pub price_features : F → List (Bar F) → ℕ → F → PriceFeatures F
    price_features spot bars lookback flat_band_pct =
        if ltb (length bars) 2
        then unavailable bars
        else price_over spot lookback flat_band_pct bars (
            if leb lookback (length bars) && not (lookback == 0)
            then drop (length bars - lookback) bars
            else bars)
