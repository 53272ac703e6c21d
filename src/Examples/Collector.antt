-- ===== src/Examples/Collector.antt =====
-- Tests and concrete cases for the collector, the chart markers and the alerts.
use mathlib.Core.List.{Perm}
use theta_plus.Base.{
  ℕ, ◌+◌, ◌≤◌, ◌≡◌, refl, true, none, some, String, List, [], ◌∷◌, arith, length, ◌==◌,
  if◌then◌else◌,
}
use theta_plus.Base.Dict.{lookup}
use theta_plus.Base.Sorting.{Ascending}
use theta_plus.Clock.{Timestamp}
use theta_plus.Engine.Models.{ce_invalidated}
use theta_plus.Collector.RateGate.{Account, refused, request, pruned, wait_of}
use theta_plus.Collector.Window.{
  Call, asks, cools, serve_all, untouched, IsSpaced, IsGuarded, serve_all-IsGuarded,
}
use theta_plus.Collector.Progress.{IsGranted, request-IsGranted}
use theta_plus.Collector.Policy.{windows}
use theta_plus.Collector.Windows.{Covers, windows-Covers}
use theta_plus.Chart.Markers.{
  ChartSignalMarker, marker_le, marker_from_decision, link_invalidations,
}
use theta_plus.Chart.Links.{Linked, link_invalidations-Linked}
use theta_plus.Alerts.Models.{AlertType}
use theta_plus.Alerts.Formatter.{alert_type_for}
use theta_plus.Alerts.Service.{Provider, dispatch}
use theta_plus.Alerts.Once.{
  IsNodup, new_service, dispatch_all, dispatch_all-IsNodup, IsAskedAgain, dispatch-retry,
}
use theta_plus.Examples.Values.{Num, cents_Float, plain_Format, ten_o_clock}
use theta_plus.Examples.States.{entry_signal}

abbrev calls : List Call
calls = asks "history" 0 5000 ∷ asks "history" 0 5100 ∷ cools 3 5200 ∷ asks "chain" 3000 9000 ∷ []

serve_all-IsGuarded_example :
    IsSpaced 1100 (serve_all 2 1100 calls (untouched, [])).1
    × IsGuarded 2 (serve_all 2 1100 calls (untouched, [])).1
serve_all-IsGuarded_example =
    serve_all-IsGuarded 2 1100 calls (omega arith) (omega arith) (omega arith)

abbrev busy : Account
busy = record untouched {
  day = 5000 ∷ [];
  day_expires = 86406000;
  last = some (record { value = 5000; expires = 86406000 });
}

abbrev still_busy : Account
still_busy = (request 2 1100 "history" 0 5100 busy).1

told_to_wait : request 2 1100 "history" 0 5100 busy ≡ (refused 1000, still_busy)
unfolding request wait_of pruned lookup
told_to_wait = refl

one_today : length (pruned 5100 busy) ≤ 2
unfolding pruned
one_today = omega arith

request-IsGranted_example : IsGranted (request 2 1100 "history" 0 6100 still_busy).0
request-IsGranted_example =
    request-IsGranted 2 1100 "history" 0 5100 6100 1000 busy still_busy (omega arith) one_today
      told_to_wait (omega arith)

windows-Covers_example : Covers 100 300 (windows 100 300)
windows-Covers_example = windows-Covers 100 300

abbrev setup_marker : ChartSignalMarker Num
setup_marker = marker_from_decision entry_signal none "live" "LIVE" none none

abbrev end_marker : ChartSignalMarker Num
end_marker =
    marker_from_decision
      (record entry_signal { decision = ce_invalidated; timestamp = ten_o_clock + 60000000 }) none
      "live" "LIVE" none none

link_invalidations-Linked_example :
    (sorted : List (ChartSignalMarker Num)) × Perm sorted (end_marker ∷ setup_marker ∷ [])
    × Ascending marker_le sorted
    × Linked [] sorted (link_invalidations (end_marker ∷ setup_marker ∷ []))
    × (link_invalidations (link_invalidations (end_marker ∷ setup_marker ∷ []))
        ≡ link_invalidations (end_marker ∷ setup_marker ∷ []))
link_invalidations-Linked_example = link_invalidations-Linked (end_marker ∷ setup_marker ∷ [])

-- A provider whose first delivery fails.
abbrev flaky : Provider ℕ
flaky = record {
  name = "telegram";
  configured = λ w. true;
  send = λ message w. (if w == 0 then some "HTTP 500" else none, w + 1);
}

abbrev hh_mm : Timestamp → String
hh_mm t = "10:00"

abbrev line : String → String
line s = s

dispatch_all-IsNodup_example :
    IsNodup
      (dispatch_all hh_mm "RESEARCH" line flaky true 300
        ((setup_marker, ("u1", 1)) ∷ (setup_marker, ("u2", 2)) ∷ (setup_marker, ("u3", 3)) ∷ [])
        (new_service 0)).confirmed
dispatch_all-IsNodup_example =
    dispatch_all-IsNodup hh_mm "RESEARCH" line flaky true 300
      ((setup_marker, ("u1", 1)) ∷ (setup_marker, ("u2", 2)) ∷ (setup_marker, ("u3", 3)) ∷ []) 0

kind_of_setup : alert_type_for setup_marker.decision ≡ some AlertType.ce_setup
unfolding alert_type_for marker_from_decision
kind_of_setup = refl

dispatch-retry_example :
    IsAskedAgain hh_mm "RESEARCH" line flaky true 300 setup_marker "HTTP 500"
      (new_service 0)
      1
      (dispatch hh_mm "RESEARCH" line flaky true 300 setup_marker "u1" 1 (new_service 0)).1
      (dispatch hh_mm "RESEARCH" line flaky true 300 setup_marker "u2" 2
        (dispatch hh_mm "RESEARCH" line flaky true 300 setup_marker "u1" 1 (new_service 0)).1).1
dispatch-retry_example =
    dispatch-retry hh_mm "RESEARCH" line flaky true 300 setup_marker AlertType.ce_setup "u1" "u2"
      "HTTP 500" 1 2 (new_service 0) 1 refl kind_of_setup refl refl refl refl
