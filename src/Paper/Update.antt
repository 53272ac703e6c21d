-- ===== src/Paper/Update.antt =====
-- backend/paper/paper_engine.py: how an open position moves with the market and ends, and the tick
-- that the pipeline calls.
use Prim.Native.String.{◌++◌}
use theta_plus.Base.{Bool, Option, none, some, String, if◌then◌else◌, truthy, or_else, ◌&&◌}
use theta_plus.Base.Int.{pos}
use theta_plus.Base.Float.{Float, Format}
use theta_plus.Clock.{Timestamp}
use theta_plus.Config.{AppConfig}
use theta_plus.Market.{MarketSnapshot, MarketFeatures}
use theta_plus.Engine.Models.{is_invalidation, SignalDecision}
use theta_plus.Replay.Observation.{OptionObservation, hi, lo}
use theta_plus.Paper.Models.{
  PaperState, target, stoploss, invalidated, expired, ambiguous, PaperPosition,
}
use theta_plus.Paper.Engine.{PaperBook, current, replace, observation_for, open_from_decision}

-- The position that `self._replace` returns, and the book with it.
abbrev pub replaced :
    {F : Type 0}
    → PaperPosition F
    → PaperPosition F
    → PaperBook F
    → Option (PaperPosition F) × PaperBook F
replaced old new book = (some new, replace old new book)

module _ {F : Type 0} ⦃fl : Float F⦄ (config : AppConfig F) where
  abbrev ended :
      PaperPosition F → PaperState → Timestamp → String → Option F → Option F → PaperPosition F
  ended position state at reason (some price) (some entry) =
      let gross = fl.round2 (fl.sub price entry) in
      let slippage = config.paper_slippage_points in
      let quantity = fl.of_int (pos position.quantity) in
      record position {
        state = state;
        current_price = some (fl.round2 price);
        exit_price = some (fl.round2 price);
        exit_time = some at;
        exit_reason = reason;
        gross_points = some gross;
        gross_pnl = some (fl.round2 (fl.mul gross quantity));
        assumed_slippage_points = slippage;
        costs = config.paper_costs_per_trade;
        net_pnl = some (
            fl.round2
              (fl.sub (fl.mul (fl.sub gross slippage) quantity) config.paper_costs_per_trade));
      }
  ended position state at reason _ _ = record position {
    state = state;
    exit_time = some at;
    exit_reason = (if truthy reason then reason else "exit price unavailable; no P&L invented");
  }

  unfoldable pub closed :
      PaperPosition F → PaperState → Option F → Timestamp → String → PaperPosition F
  closed position state price at reason = ended position state at reason price position.entry_price

module _ {F : Type 0} ⦃fl : Float F⦄ ⦃fm : Format F⦄ (config : AppConfig F) where
  -- What a data gap does to the open position.
  unfoldable pub after_gap : PaperPosition F → Timestamp → Bool → Bool → PaperPosition F
  after_gap position at is_invalidated is_expired =
      if is_invalidated
      then closed config position invalidated none at "backend invalidation; exit price unavailable"
      else (if is_expired
          then closed config position expired none at "session end; exit price unavailable"
          else record position { exit_reason = "" })

  abbrev unless_touched : PaperPosition F → F → Timestamp → Bool → Bool → PaperPosition F
  unless_touched position price at is_invalidated is_expired =
      if is_invalidated
      then closed config position invalidated (some price) at
          "backend signal invalidation (frozen engine)"
      else (if is_expired
          then closed config position expired (some price) at "session end reached"
          else position)

  abbrev touched :
      PaperPosition F
      → OptionObservation F
      → Timestamp
      → Bool
      → Bool
      → Option F
      → Option F
      → PaperPosition F
  touched position obs at is_invalidated is_expired (some goal) (some stop) =
      let hit_target = fl.le goal (hi obs) in
      let hit_stop = fl.le (lo obs) stop in
      if hit_target && hit_stop
      then closed config position ambiguous (some obs.ltp) at
          "target and stop both reachable in the same observation"
      else (if hit_target
          then closed config position target (some obs.ltp) at
              ("option LTP reached target " ++ fm.plain goal)
          else (if hit_stop
              then closed config position stoploss (some obs.ltp) at
                  ("option LTP reached stoploss " ++ fm.plain stop)
              else unless_touched position obs.ltp at is_invalidated is_expired))
  touched position obs at is_invalidated is_expired _ _ =
      unless_touched position obs.ltp at is_invalidated is_expired

  -- What an observation does to the open position.
  unfoldable pub after_observation :
      PaperPosition F → OptionObservation F → Timestamp → Bool → Bool → PaperPosition F
  after_observation position obs at is_invalidated is_expired =
      touched (record position { current_price = some (fl.round2 obs.ltp) }) obs at is_invalidated
        is_expired position.target_price position.stoploss_price

  unfoldable pub advance :
      PaperPosition F → Option (OptionObservation F) → Timestamp → Bool → Bool → PaperPosition F
  advance position none at is_invalidated is_expired =
      after_gap position at is_invalidated is_expired
  advance position (some obs) at is_invalidated is_expired =
      after_observation position obs at is_invalidated is_expired

  abbrev advanced :
      PaperBook F
      → Option (OptionObservation F)
      → Timestamp
      → Bool
      → Bool
      → Option (PaperPosition F)
      → Option (PaperPosition F) × PaperBook F
  advanced book obs at is_invalidated is_expired none = (none, book)
  advanced book obs at is_invalidated is_expired (some position) =
      replaced position (advance position obs at is_invalidated is_expired) book

  unfoldable pub update :
      PaperBook F
      → Option (OptionObservation F)
      → Timestamp
      → Bool
      → Bool
      → Option (PaperPosition F) × PaperBook F
  update book obs at is_invalidated is_expired =
      advanced book obs at is_invalidated is_expired (current book)

  abbrev ticked :
      PaperBook F
      → SignalDecision F
      → Option (MarketFeatures F)
      → Option (MarketSnapshot F)
      → String
      → Timestamp
      → Bool
      → String
      → Option (PaperPosition F)
      → Option (PaperPosition F) × PaperBook F
  ticked book decision features snapshot signal_id at is_expired uuid none =
      open_from_decision config book decision features signal_id (some at) uuid
  ticked book decision features snapshot signal_id at is_expired uuid (some position) =
      update book (observation_for snapshot position.strike position.option_type at) at
        (is_invalidation decision.decision) is_expired

  unfoldable pub on_tick :
      PaperBook F
      → SignalDecision F
      → Option (MarketFeatures F)
      → Option (MarketSnapshot F)
      → String
      → Option Timestamp
      → Bool
      → String
      → Option (PaperPosition F) × PaperBook F
  on_tick book decision features snapshot signal_id now is_expired uuid =
      ticked book decision features snapshot signal_id (or_else now decision.timestamp) is_expired
        uuid (current book)
