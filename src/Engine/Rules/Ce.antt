-- ===== src/Engine/Rules/Ce.antt =====
-- backend/engines/rule_engine.py: the rules that confirm a call setup.
use Prim.Native.String.{◌++◌}
use theta_plus.Base.{◌&&◌, List, [], ◌∷◌, if◌then◌else◌, is_some}
use theta_plus.Base.Int.{leb_ℤ}
use theta_plus.Base.Float.{Float, Format}
use theta_plus.Config.{AppConfig}
use theta_plus.Market.{MarketFeatures}
use theta_plus.Engine.Models.{ce, RuleResult}
use theta_plus.Engine.Rules.Parts.{
  result, trend_text, trend_known, trend_is_up, direction_text, direction_is_up, text_or, at_least,
  fmt_int, observed_pcr, observed_vwap, observed_price, atm_rule,
}

module _ {F : Type 0} ⦃fl : Float F⦄ ⦃fm : Format F⦄ (f : MarketFeatures F)
    (config : AppConfig F) where
  unfoldable pub evaluate_ce_rules : List RuleResult
  unfolding result
  evaluate_ce_rules =
      let w = config.weights in
      let pcr = f.pcr in
      let vwap = f.vwap in
      let oich = f.oi in
      let price = f.price in
      let pcr_available = pcr.valid && trend_known pcr.pcr_trend in
      let oich_available = is_some oich.put_oi_change && is_some oich.call_oi_change in
      result "PCR_CONFIRMATION" ce w.pcr_trend pcr_available (trend_is_up pcr.pcr_trend)
        (observed_pcr f config)
        (if pcr_available && trend_is_up pcr.pcr_trend
          then "PCR trend supportive for CE (UP over lookback)"
          else (if pcr_available
              then "PCR trend not supportive for CE (" ++ trend_text pcr.pcr_trend ++ ")"
              else "PCR unavailable: " ++ text_or pcr.reason pcr.quality))
      ∷ result "VWAP_CONFIRMATION" ce w.vwap (vwap.valid && is_some vwap.vwap) vwap.above_vwap
          (observed_vwap f config)
          (if vwap.valid && vwap.above_vwap
            then "Reference price is above same-instrument session VWAP"
            else (if vwap.valid
                then "Reference price is not above same-instrument session VWAP"
                else "VWAP unavailable: " ++ vwap.reason))
      ∷ result "OI_SUPPORT" ce w.oi_support pcr.valid (leb_ℤ pcr.atm_call_oi pcr.atm_put_oi)
          ("ATM-range put OI "
            ++ fm.grouped pcr.atm_put_oi
            ++ " vs call OI "
            ++ fm.grouped pcr.atm_call_oi)
          (if pcr.valid && leb_ℤ pcr.atm_call_oi pcr.atm_put_oi
            then "Put OI support at the ATM range (put OI >= call OI)"
            else (if pcr.valid
                then "Call OI exceeds put OI at the ATM range: no put-writer support"
                else "OI support unavailable: " ++ text_or pcr.reason pcr.quality))
      ∷ result "OI_CHANGE_SUPPORT" ce w.oi_change oich_available
          (at_least oich.call_oi_change oich.put_oi_change)
          ("put OI change "
            ++ fmt_int fm oich.put_oi_change
            ++ " vs call OI change "
            ++ fmt_int fm oich.call_oi_change)
          (if oich_available && at_least oich.call_oi_change oich.put_oi_change
            then "Put OI added at least as fast as call OI vs previous snapshot"
            else (if oich_available
                then "Call OI added faster than put OI vs previous snapshot"
                else "OI change unavailable: " ++ oich.reason))
      ∷ atm_rule f config ce
      ∷ result "PRICE_CONFIRMATION" ce w.price_confirmation price.available
          (direction_is_up price.short_term_direction) (observed_price f config)
          (if price.available && direction_is_up price.short_term_direction
            then "Price structure confirms CE (short-term direction UP)"
            else (if price.available
                then "Price structure not supportive for CE ("
                  ++ direction_text price.short_term_direction
                  ++ ")"
                else "Price confirmation unavailable: " ++ price.reason))
      ∷ []
