-- ===== src/Pipeline/Tick.antt =====
-- backend/pipeline.py: `tick` and `refresh_data_health`. Left out are the log, the ATM history that only
-- the dashboard shows, the chart markers, the alerts and the Sheets queues; the id of the signal,
-- which the marker gives, is an argument, and so are the answers of the feed. The
-- configuration is the pipeline's, which a sheet of settings may have replaced; the paper engine and
-- the execution service keep the one of the start, which is in the setting.
use mathlib.Core.Option
use theta_plus.Base.{
  ℕ, ◌+◌, ◌-◌, ◌/◌, Bool, true, false, not, ◌&&◌, ◌||◌, Option, none, some, String, List, [], ◌∷◌,
  ◌++◌, if◌then◌else◌, ltb, length, take, drop,
}
use theta_plus.Base.Int.{pos}
use theta_plus.Base.Float.{Float, Format}
use theta_plus.Base.Dict.{Dict, insert}
use theta_plus.Base.Raises.{Raises, ok, raised}
use theta_plus.Clock.{Timestamp, minute, time_of}
use theta_plus.Config.{AppConfig, Mode, paper, parse_hhmm}
use theta_plus.Market.{HealthCode, MarketSnapshot, MarketFeatures}
use theta_plus.Engine.Models.{SignalDecision, waiting}
use theta_plus.Engine.Memory.{SignalMemory, interrupted}
use theta_plus.Engine.Signal.{evaluate, evaluate_and_apply}
use theta_plus.Features.Bars.{Bar}
use theta_plus.Features.Health.{data_age_seconds, aggregate_health}
use theta_plus.Features.Build.{build_features}
use theta_plus.Paper.Engine.{PaperBook}
use theta_plus.Paper.Update.{on_tick}
use theta_plus.Execution.Gate.{is_live}
use theta_plus.Execution.Service.State.{State, Setting}
use theta_plus.Execution.Service.Entry.{attempt_entry}

pub record Pipeline (F W : Type 0) : Type 0 where
  pub memory : SignalMemory F
  pub features : Option (MarketFeatures F)
  pub decision : Option (SignalDecision F)
  pub pcr_hist : List (Timestamp × Option F)
  pub prev_snapshot : Option (MarketSnapshot F)
  pub feed_failed : Bool
  pub paper : PaperBook F
  pub execution : State F W

-- What the feed answers at a tick.
pub record FeedAnswer (F : Type 0) : Type 0 where
  pub snapshot : MarketSnapshot F
  pub bars : List (Bar F)
  pub vwap_bars : Option (List (Bar F))

abbrev is_paper_mode : Mode → Bool
is_paper_mode paper = true
is_paper_mode _ = false

-- The bars up to the current minute, of a series that begins at 9:15.
abbrev pub count_bars : Timestamp → ℕ
count_bars now = let count = time_of now / minute - 555 + 1 in if ltb count 2 then 2 else count

module _ {F W : Type 0} ⦃fl : Float F⦄ ⦃fm : Format F⦄ (set : Setting F W)
    (config : AppConfig F) where
  abbrev session_over : Timestamp → Bool
  session_over now = ltb (parse_hhmm config.market_close) (time_of now)

  abbrev pub stale_decision : SignalDecision F → SignalDecision F
  stale_decision d = record d {
    decision = waiting;
    qualifying_side = none;
    reasons = "DATA_BLOCKED: feed unavailable or stale; no actionable setup" ∷ [];
  }

  unfoldable pub stale_with :
      Timestamp
      → MarketFeatures F
      → Pipeline F W
      → Dict String
      → Raises HealthCode
      → Raises (Unit {0}) × Pipeline F W
  stale_with now f p checks (raised e) = (raised e, p)
  stale_with now f p checks (ok status) = (
    ok tt,
    record p {
      features = some (record f {
        data_health = record {
          status = status;
          age_seconds = data_age_seconds f.timestamp now;
          checks = checks;
          details = "Feed unavailable or observation expired" ∷ [];
        };
      });
      decision = Option.map (λ d. record (stale_decision d) { data_health = status }) p.decision;
    },
  )

  -- The features with a stale health, and a decision that waits.
  abbrev pub block_stale :
      Timestamp → MarketFeatures F → Pipeline F W → Raises (Unit {0}) × Pipeline F W
  block_stale now f p =
      let checks = insert "DATA_AGE" "STALE" f.data_health.checks in
      stale_with now f p checks (aggregate_health checks)

  abbrev pub refresh_features :
      Timestamp → Pipeline F W → Option (MarketFeatures F) → Raises (Unit {0}) × Pipeline F W
  refresh_features now p none = (ok tt, p)
  refresh_features now p (some f) =
      if not p.feed_failed
        && fl.le (data_age_seconds f.timestamp now) (fl.of_int (pos config.max_data_age_seconds))
      then (ok tt, p)
      else block_stale now f p

  unfoldable pub refresh_data_health : Timestamp → Pipeline F W → Raises (Unit {0}) × Pipeline F W
  refresh_data_health now p = refresh_features now p p.features

  -- `deque(maxlen=...)`: the newest samples.
  abbrev remember : Timestamp → Option F → List (Timestamp × Option F) → List (Timestamp × Option F)
  remember now none history = history
  remember now (some pcr) history =
      let longer = history ++ ((now, some pcr) ∷ []) in
      drop (length longer - (config.pcr_lookback + 30)) longer

  -- The paper book and the execution service follow the decision. What they raise is contained.
  unfoldable pub act_on :
      SignalDecision F
      → MarketFeatures F
      → MarketSnapshot F
      → String
      → String
      → Timestamp
      → Pipeline F W
      → Pipeline F W
  act_on d f snapshot signal_id uuid now p = record p {
    paper =
        (if is_paper_mode config.system_mode || config.paper_trading_enabled
          then (on_tick set.config p.paper d (some f) (some snapshot) signal_id (some now)
              (session_over now) uuid).1
          else p.paper);
    execution =
        (if is_live config.system_mode
          then (attempt_entry set (some d) (some f) signal_id now none p.execution).1
          else p.execution);
  }

  -- The state after the features, after the decision, and at the end.
  abbrev pub after_features : FeedAnswer F → MarketFeatures F → Pipeline F W → Pipeline F W
  after_features answer f p = record p {
    feed_failed = false;
    pcr_hist = remember f.timestamp f.pcr.total_pcr p.pcr_hist;
  }

  abbrev pub after_decision :
      FeedAnswer F
      → MarketFeatures F
      → SignalDecision F
      → SignalMemory F
      → Pipeline F W
      → Pipeline F W
  after_decision answer f d m p = record (after_features answer f p) {
    memory = m;
    features = some f;
    decision = some d;
    prev_snapshot = some answer.snapshot;
  }

  -- What a raise on the way to the decision leaves of the memory.
  abbrev left_memory : SignalMemory F → Timestamp → Raises (SignalDecision F) → SignalMemory F
  left_memory m now (raised e) = m
  left_memory m now (ok d) = interrupted m d now

  unfoldable pub settle_on :
      FeedAnswer F
      → String
      → String
      → Timestamp
      → Pipeline F W
      → MarketFeatures F
      → Raises (SignalDecision F × SignalMemory F)
      → Raises (Unit {0}) × Pipeline F W
  settle_on answer signal_id uuid now p f (raised e) =
      let m = left_memory p.memory now (evaluate f config p.memory now) in
      (raised e, record (after_features answer f p) { memory = m })
  settle_on answer signal_id uuid now p f (ok (d, m)) =
      refresh_data_health now
        (act_on d f answer.snapshot signal_id uuid now (after_decision answer f d m p))

  unfoldable pub decide_on :
      FeedAnswer F
      → String
      → String
      → Timestamp
      → Pipeline F W
      → Raises (MarketFeatures F)
      → Raises (Unit {0}) × Pipeline F W
  decide_on answer signal_id uuid now p (raised e) = (raised e, record p { feed_failed = false })
  decide_on answer signal_id uuid now p (ok f) =
      settle_on answer signal_id uuid now p f (evaluate_and_apply p.memory f config now)

  -- An iteration: whether it raises, and the state that it leaves in either case.
  unfoldable pub tick :
      Option (FeedAnswer F)
      → String
      → String
      → Timestamp
      → Pipeline F W
      → Raises (Unit {0}) × Pipeline F W
  tick none signal_id uuid now p = refresh_data_health now (record p { feed_failed = true })
  tick (some answer) signal_id uuid now p = decide_on answer signal_id uuid now p (
      build_features config answer.snapshot (take (count_bars now) answer.bars) p.pcr_hist
        p.prev_snapshot answer.vwap_bars)
