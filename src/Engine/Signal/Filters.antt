-- ===== src/Engine/Signal/Filters.antt =====
-- backend/engines/signal_engine.py: the session window and the invalidation of the active signal.
use Prim.Native.String.{◌++◌}
use theta_plus.Base.{Bool, ◌&&◌, not, Option, none, some, String, if◌then◌else◌, ltb, leb, or_else}
use theta_plus.Base.Raises.{Raises, ok, raised, type_error, ◌>>=◌}
use theta_plus.Base.Float.{Float, Format, f_le}
use theta_plus.Clock.{Timestamp, time_of}
use theta_plus.Config.{AppConfig, parse_hhmm}
use theta_plus.Market.{MarketFeatures}
use theta_plus.Engine.Models.{Side, ce, pe, active}
use theta_plus.Engine.Memory.{SignalMemory}
use theta_plus.Engine.StateMachine.{same_state}

-- `_REASON_TIME_BEFORE` and `_REASON_TIME_AFTER`
pub data TimeFilter : Type 0 where
  before_start after_end : TimeFilter

-- `none` inside the signal window. The start is eligible, the end if it is inclusive.
unfoldable pub time_filter_reason : {F : Type 0} → Timestamp → AppConfig F → Option TimeFilter
time_filter_reason now config =
    let t = time_of now in
    let end = parse_hhmm config.signal_end_time in
    if ltb t (parse_hhmm config.signal_start_time)
    then some before_start
    else (if (if config.signal_end_inclusive then ltb end t else leb end t)
        then some after_end
        else none)

module _ {F : Type 0} ⦃fl : Float F⦄ ⦃fm : Format F⦄ where
  -- f"{x:.2f}" raises for `None`.
  abbrev fixed2 : Option F → Raises String
  fixed2 none = raised type_error
  fixed2 (some x) = ok (fm.fixed2 x)

  crossed : String → MarketFeatures F → Raises (Option String)
  crossed direction f = do
    vwap ← fixed2 f.vwap.vwap
    ok (
        some (
          "reference price crossed "
          ++ direction
          ++ " same-instrument session VWAP (reference "
          ++ fm.fixed2 (or_else f.vwap.reference_price f.spot)
          ++ ", VWAP "
          ++ vwap
          ++ ")"))

  -- `wide` is the move of the PCR against the side, from the signal's to the current one.
  reversed : String → String → F → F → F → F → Option String
  reversed side word from to move delta =
      if f_le delta move
      then some (
          "PCR reversed materially for "
          ++ side
          ++ ": "
          ++ fm.fixed2 from
          ++ " -> "
          ++ fm.fixed2 to
          ++ " ("
          ++ word
          ++ " "
          ++ fm.fixed2 move
          ++ " >= "
          ++ fm.fixed2 delta
          ++ ")")
      else none

  reversal : Side → Option F → Option F → F → Option String
  unfolding reversed
  reversal ce (some from) (some to) delta = reversed "CE" "drop" from to (fl.sub from to) delta
  reversal pe (some from) (some to) delta = reversed "PE" "rise" from to (fl.sub to from) delta
  reversal _ _ _ _ = none

  -- The two triggers of one side, the crossing first.
  triggers :
      Side
      → Bool
      → String
      → MarketFeatures F
      → AppConfig F
      → SignalMemory F
      → Raises (Option String)
  unfolding crossed reversal
  triggers side against direction f config state =
      let inv = config.invalidation in
      if inv.vwap_cross && f.vwap.valid && against
      then crossed direction f
      else (if inv.pcr_reversal
          then ok (reversal side state.signal_pcr f.pcr.total_pcr inv.pcr_reversal_delta)
          else ok none)

  -- Only an active signal with a side can be invalidated.
  unfoldable pub invalidation_reason :
      MarketFeatures F → AppConfig F → SignalMemory F → Raises (Option String)
  unfolding triggers
  invalidation_reason f config state =
      if not (same_state state.state active) then ok none else elim state.current_side [
        | none ↦ ok none
        | some ce ↦ triggers ce f.vwap.below_vwap "below" f config state
        | some pe ↦ triggers pe f.vwap.above_vwap "above" f config state
      ]
