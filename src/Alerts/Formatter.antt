-- ===== src/Alerts/Formatter.antt =====
-- backend/alerts/formatter.py. The time of day that `strftime` writes is a parameter.
use Prim.Native.String.{◌++◌}
use theta_plus.Base.{Option, none, some, String, List, [], ◌∷◌, if◌then◌else◌, truthy}
use theta_plus.Base.Float.{Format}
use theta_plus.Clock.{Timestamp}
use theta_plus.Engine.Models.{
  Decision, ce_setup, pe_setup, waiting, ce_invalidated, pe_invalidated, side_of, side_text,
}
use theta_plus.Engine.Rules.Parts.{trend_text}
use theta_plus.Replay.Session.{state_text}
use theta_plus.Alerts.Models.{AlertType}
use theta_plus.Chart.Markers.{ChartSignalMarker, MarkerKind, invalidation}

unfoldable pub alert_type_for : Decision → Option AlertType
alert_type_for ce_setup = some AlertType.ce_setup
alert_type_for pe_setup = some AlertType.pe_setup
alert_type_for ce_invalidated = some AlertType.invalidated
alert_type_for pe_invalidated = some AlertType.invalidated
alert_type_for waiting = none

-- `"\n".join(lines)`
abbrev joined_lines : List String → String
joined_lines [] = ""
joined_lines (l ∷ []) = l
joined_lines (l ∷ m ∷ ls) = l ++ "\n" ++ joined_lines (m ∷ ls)

abbrev or_dash : {A : Type 0} → (A → String) → Option A → String
or_dash show none = "—"
or_dash show (some a) = show a

-- `text or "—"`
abbrev text_or_dash : String → String
text_or_dash s = if truthy s then s else "—"

abbrev origin_text : Option String → String
origin_text none = "—"
origin_text (some s) = text_or_dash s

-- `marker.invalidation_reason or marker.reason or "—"`
abbrev reason_text : Option String → String → String
reason_text none reason = text_or_dash reason
reason_text (some s) reason = if truthy s then s else text_or_dash reason

module _ {F : Type 0} ⦃fm : Format F⦄ (hh_mm : Timestamp → String) (mode : String) where
  unfoldable pub format_setup : ChartSignalMarker F → String
  format_setup m = joined_lines (
      (m.symbol ++ " " ++ side_text (side_of m.decision) ++ " SETUP")
      ∷ ""
      ∷ ("Signal: " ++ m.signal_id)
      ∷ ("Time: " ++ hh_mm m.timestamp ++ " IST")
      ∷ ""
      ∷ ("Spot: " ++ or_dash fm.fixed2 m.spot)
      ∷ ("VWAP: " ++ or_dash fm.fixed2 m.vwap ++ "   (backend, strategy-authoritative)")
      ∷ ("VWAP Distance: " ++ or_dash fm.fixed2 m.vwap_distance)
      ∷ ""
      ∷ ("PCR: " ++ or_dash fm.fixed2 m.pcr)
      ∷ ("ATM PCR: " ++ or_dash fm.fixed2 m.atm_pcr)
      ∷ ("PCR Trend: " ++ or_dash trend_text m.pcr_trend)
      ∷ ""
      ∷ ("ATM: " ++ or_dash fm.int m.atm)
      ∷ ("CE OI: "
          ++ or_dash fm.grouped m.ce_oi
          ++ "   CE OI Change: "
          ++ or_dash fm.grouped m.ce_oi_change)
      ∷ ("PE OI: "
          ++ or_dash fm.grouped m.pe_oi
          ++ "   PE OI Change: "
          ++ or_dash fm.grouped m.pe_oi_change)
      ∷ ""
      ∷ ("Score: "
          ++ fm.int m.score
          ++ "/"
          ++ fm.int m.max_score
          ++ "  (rule confirmation score, not a probability)")
      ∷ ("State: " ++ state_text m.state)
      ∷ ""
      ∷ "Reason:"
      ∷ text_or_dash m.reason
      ∷ ""
      ∷ ("Mode: " ++ mode)
      ∷ ("Strategy: " ++ m.strategy_version)
      ∷ ("Feature: " ++ m.feature_version)
      ∷ ("Data: " ++ m.data_origin_label)
      ∷ ""
      ∷ "Research signal only. No order was placed; no execution path exists."
      ∷ [])

  unfoldable pub format_invalidation : ChartSignalMarker F → String
  format_invalidation m = joined_lines (
      (m.symbol ++ " " ++ side_text (side_of m.decision) ++ " INVALIDATED")
      ∷ ""
      ∷ ("Original Signal: " ++ origin_text m.origin_signal_id)
      ∷ ("Event Signal: " ++ m.signal_id)
      ∷ ("Time: " ++ hh_mm m.timestamp ++ " IST")
      ∷ ("State: " ++ state_text m.state)
      ∷ ""
      ∷ "Reason:"
      ∷ reason_text m.invalidation_reason m.reason
      ∷ ""
      ∷ ("Mode: " ++ mode)
      ∷ ("Data: " ++ m.data_origin_label)
      ∷ ""
      ∷ "The original signal record is retained for audit; nothing was deleted."
      ∷ [])

  abbrev format_as : MarkerKind → ChartSignalMarker F → String
  format_as invalidation m = format_invalidation m
  format_as _ m = format_setup m

  unfoldable pub format_alert : ChartSignalMarker F → String
  format_alert m = format_as m.marker_kind m
