-- ===== src/Features/Oi.antt =====
-- backend/engines/oi_engine.py: the open interest of an option chain, and its change.
use Prim.Native.String.{◌++◌}
use theta_plus.Base.{
  ◌&&◌, not, str_eq, Bool, true, false, Option, none, some, String, if◌then◌else◌, length, ◌==◌,
}
use theta_plus.Base.Int.{ℤ, pos, ◌-ℤ◌, ltb_ℤ}
use theta_plus.Base.Float.{Format}
use theta_plus.Market.{OptionChain, OiFeatures}
use theta_plus.Features.Chain.{put_oi_of, call_oi_of}

abbrev change_from : (OiFeatures → ℤ) → ℤ → Option OiFeatures → Option ℤ
change_from level now none = none
change_from level now (some previous) = some (now -ℤ level previous)

abbrev first_reason : Option OiFeatures → String
first_reason none = "no previous snapshot: OI change unavailable"
first_reason (some _) = ""

module _ {F : Type 0} ⦃fm : Format F⦄ (chain : OptionChain F) where
  abbrev interpretation : String → ℤ → Option ℤ → String
  interpretation side level none =
      side ++ "_OI_BASELINE: " ++ fm.grouped level ++ " (no previous snapshot)"
  interpretation side level (some change) =
      if ltb_ℤ (pos 0) change
      then side
        ++ "_OI_ADDED: "
        ++ fm.grouped level
        ++ " ("
        ++ fm.signed change
        ++ " vs previous snapshot)"
      else (if ltb_ℤ change (pos 0)
          then side
            ++ "_OI_UNWOUND: "
            ++ fm.grouped level
            ++ " ("
            ++ fm.signed change
            ++ " vs previous snapshot)"
          else side ++ "_OI_UNCHANGED: " ++ fm.grouped level ++ " (0 vs previous snapshot)")

  abbrev oi_from : ℤ → ℤ → Option ℤ → Option ℤ → Bool → String → OiFeatures
  oi_from call put call_change put_change valid reason = record {
    call_oi = call;
    put_oi = put;
    call_oi_change = call_change;
    put_oi_change = put_change;
    call_interpretation = interpretation "CALL" call call_change;
    put_interpretation = interpretation "PUT" put put_change;
    valid = valid;
    reason = reason;
  }

  unfoldable pub compute_oi : Option OiFeatures → OiFeatures
  compute_oi previous =
      let call = call_oi_of chain.rows in
      let put = put_oi_of chain.rows in
      let call_change = change_from (λ p. p.call_oi) call previous in
      let put_change = change_from (λ p. p.put_oi) put previous in
      if length chain.rows == 0
      then oi_from (pos 0) (pos 0) call_change put_change false "empty option chain; OI unavailable"
      else oi_from call put call_change put_change true (first_reason previous)

-- `price_oi_relationship`
unfoldable pub price_oi_relationship : String → Option ℤ → String → String
price_oi_relationship price_direction none side = side ++ "_RELATIONSHIP_UNKNOWN: no OI change data"
price_oi_relationship price_direction (some oi_change) side =
    let added = ltb_ℤ (pos 0) oi_change in
    let up = str_eq price_direction "UP" in
    if up && added
    then side ++ "_LONG_BUILDUP"
    else (if up && not added
        then side ++ "_SHORT_COVER"
        else (if not up && added then side ++ "_SHORT_BUILDUP" else side ++ "_LONG_UNWINDING"))
