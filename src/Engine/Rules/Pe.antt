-- ===== src/Engine/Rules/Pe.antt =====
-- backend/engines/rule_engine.py: the rules that confirm a put setup.
use Prim.Native.String.{◌++◌}
use theta_plus.Base.{◌&&◌, List, [], ◌∷◌, if◌then◌else◌, is_some}
use theta_plus.Base.Int.{leb_ℤ}
use theta_plus.Base.Float.{Float, Format}
use theta_plus.Config.{AppConfig}
use theta_plus.Market.{MarketFeatures}
use theta_plus.Engine.Models.{pe, RuleResult}
use theta_plus.Engine.Rules.Parts.{
  result, trend_text, trend_known, trend_is_down, direction_text, direction_is_down, text_or,
  at_least, fmt_int, observed_pcr, observed_vwap, observed_price, atm_rule,
}

module _ {F : Type 0} ⦃fl : Float F⦄ ⦃fm : Format F⦄ (f : MarketFeatures F)
    (config : AppConfig F) where
  unfoldable pub evaluate_pe_rules : List RuleResult
  unfolding result
  evaluate_pe_rules =
      let w = config.weights in
      let pcr = f.pcr in
      let vwap = f.vwap in
      let oich = f.oi in
      let price = f.price in
      let pcr_available = pcr.valid && trend_known pcr.pcr_trend in
      let oich_available = is_some oich.put_oi_change && is_some oich.call_oi_change in
      result "PCR_CONFIRMATION" pe w.pcr_trend pcr_available (trend_is_down pcr.pcr_trend)
        (observed_pcr f config)
        (if pcr_available && trend_is_down pcr.pcr_trend
          then "PCR trend supportive for PE (DOWN over lookback)"
          else (if pcr_available
              then "PCR trend not supportive for PE (" ++ trend_text pcr.pcr_trend ++ ")"
              else "PCR unavailable: " ++ text_or pcr.reason pcr.quality))
      ∷ result "VWAP_CONFIRMATION" pe w.vwap (vwap.valid && is_some vwap.vwap) vwap.below_vwap
          (observed_vwap f config)
          (if vwap.valid && vwap.below_vwap
            then "Reference price is below same-instrument session VWAP"
            else (if vwap.valid
                then "Reference price is not below same-instrument session VWAP"
                else "VWAP unavailable: " ++ vwap.reason))
      ∷ result "OI_SUPPORT" pe w.oi_support pcr.valid (leb_ℤ pcr.atm_put_oi pcr.atm_call_oi)
          ("ATM-range call OI "
            ++ fm.grouped pcr.atm_call_oi
            ++ " vs put OI "
            ++ fm.grouped pcr.atm_put_oi)
          (if pcr.valid && leb_ℤ pcr.atm_put_oi pcr.atm_call_oi
            then "Call OI support at the ATM range (call OI >= put OI)"
            else (if pcr.valid
                then "Put OI exceeds call OI at the ATM range: no call-writer resistance"
                else "OI support unavailable: " ++ text_or pcr.reason pcr.quality))
      ∷ result "OI_CHANGE_SUPPORT" pe w.oi_change oich_available
          (at_least oich.put_oi_change oich.call_oi_change)
          ("call OI change "
            ++ fmt_int fm oich.call_oi_change
            ++ " vs put OI change "
            ++ fmt_int fm oich.put_oi_change)
          (if oich_available && at_least oich.put_oi_change oich.call_oi_change
            then "Call OI added at least as fast as put OI vs previous snapshot"
            else (if oich_available
                then "Put OI added faster than call OI vs previous snapshot"
                else "OI change unavailable: " ++ oich.reason))
      ∷ atm_rule f config pe
      ∷ result "PRICE_CONFIRMATION" pe w.price_confirmation price.available
          (direction_is_down price.short_term_direction) (observed_price f config)
          (if price.available && direction_is_down price.short_term_direction
            then "Price structure confirms PE (short-term direction DOWN)"
            else (if price.available
                then "Price structure not supportive for PE ("
                  ++ direction_text price.short_term_direction
                  ++ ")"
                else "Price confirmation unavailable: " ++ price.reason))
      ∷ []
