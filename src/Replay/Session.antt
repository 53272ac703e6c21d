-- ===== src/Replay/Session.antt =====
-- backend/replay/replay_engine.py: the replay of the feature and signal engines over snapshots. The
-- functions `uuid5` and `sha256` of the standard library are parameters.
use Prim.Native.String.{◌++◌}
use mathlib.Core.List.{◌++◌ as append_list}
use theta_plus.Base.{
  ℕ, Bool, false, not, ◌&&◌, Option, none, some, String, List, [], ◌∷◌, if◌then◌else◌, ltb, ◌==◌,
}
use theta_plus.Base.Float.{Float, Format}
use theta_plus.Base.Raises.{Raises, ok, ◌>>=◌}
use theta_plus.Clock.{Timestamp, date_of, time_of}
use theta_plus.Config.{AppConfig, parse_hhmm}
use theta_plus.Market.{MarketSnapshot, MarketFeatures, health_text}
use theta_plus.Engine.Models.{
  SignalState, wait, watch, entry_candidate, active, invalidated, target, stoploss, expired,
  SignalDecision, decision_text,
}
use theta_plus.Engine.Memory.{SignalMemory, fresh}
use theta_plus.Engine.Signal.{evaluate_and_apply}
use theta_plus.Features.Bars.{Bar}
use theta_plus.Features.Build.{build_features}
use theta_plus.Replay.Models.{ReplaySignal}
use theta_plus.Replay.Feed.{replay_feed}

-- What the loop carries from one snapshot to the next.
pub record Session (F : Type 0) : Type 0 where
  pub date : Option ℕ
  pub bars : List (Bar F)
  pub pcr_hist : List (Timestamp × Option F)
  pub prev_snapshot : Option (MarketSnapshot F)
  pub memory : SignalMemory F

abbrev pub same_date : Option ℕ → ℕ → Bool
same_date none d = false
same_date (some c) d = c == d

-- `SignalState.value`
abbrev pub state_text : SignalState → String
state_text wait = "WAIT"
state_text watch = "WATCH"
state_text entry_candidate = "ENTRY_CANDIDATE"
state_text active = "ACTIVE"
state_text invalidated = "INVALIDATED"
state_text target = "TARGET"
state_text stoploss = "STOPLOSS"
state_text expired = "EXPIRED"

-- `" | ".join(reasons)`
abbrev pub join_reasons : List String → String
join_reasons [] = ""
join_reasons (r ∷ []) = r
join_reasons (r ∷ s ∷ rs) = r ++ " | " ++ join_reasons (s ∷ rs)

abbrev pub cons_signal :
    {F : Type 0} → Option (ReplaySignal F) → List (ReplaySignal F) → List (ReplaySignal F)
cons_signal none signals = signals
cons_signal (some s) signals = s ∷ signals

module _ {F : Type 0} ⦃fl : Float F⦄ ⦃fm : Format F⦄ (uuid5 : String → String) where
  abbrev pub blank : Session F
  blank = record { date = none; bars = []; pcr_hist = []; prev_snapshot = none; memory = fresh }

  -- A new date begins a session of its own.
  unfoldable pub enter : ℕ → Session F → Session F
  enter d s = if same_date s.date d then s else record blank { date = some d }

  abbrev pub session_bar : MarketSnapshot F → Bar F
  session_bar snap = record {
    high = snap.tick.high;
    low = snap.tick.low;
    close = snap.tick.close;
    volume = fl.of_int snap.tick.volume;
    source = "ohlcv";
  }

  abbrev extended : List (Timestamp × Option F) → Timestamp → Option F → List (Timestamp × Option F)
  extended history now none = history
  extended history now (some pcr) = append_list history ((now, some pcr) ∷ [])

  abbrev pub signal_of : MarketSnapshot F → MarketFeatures F → SignalDecision F → ReplaySignal F
  signal_of snap f d = record {
    signal_id = uuid5 (snap.snapshot_id ++ ":" ++ fm.isoformat snap.timestamp);
    snapshot_id = snap.snapshot_id;
    timestamp = snap.timestamp;
    instrument = snap.instrument;
    expiry = snap.chain.expiry;
    spot = some f.spot;
    vwap = f.vwap.vwap;
    total_pcr = f.pcr.total_pcr;
    pcr_trend = f.pcr.pcr_trend;
    put_oi = some f.oi.put_oi;
    call_oi = some f.oi.call_oi;
    ce_score = d.ce_score;
    pe_score = d.pe_score;
    ce_max_score = d.ce_max_score;
    pe_max_score = d.pe_max_score;
    decision = d.decision;
    state = d.state;
    reason = join_reasons d.reasons;
    atm = some f.atm.atm_strike;
    above_vwap = f.vwap.above_vwap;
    below_vwap = f.vwap.below_vwap;
    data_health = f.data_health.status;
    strategy_version = d.strategy_version;
    feature_engine_version = d.feature_engine_version;
    config_version = d.config_version;
    rule_results = append_list d.ce_rules d.pe_rules;
  }

  abbrev optional : Option F → String
  optional none = "None"
  optional (some x) = fm.plain x

  abbrev hash_line : ReplaySignal F → String
  hash_line s =
      fm.isoformat s.timestamp
      ++ "|"
      ++ s.snapshot_id
      ++ "|"
      ++ decision_text s.decision
      ++ "|"
      ++ state_text s.state
      ++ "|"
      ++ fm.int s.ce_score
      ++ "|"
      ++ fm.int s.pe_score
      ++ "|"
      ++ optional s.total_pcr
      ++ "|"
      ++ optional s.vwap
      ++ "|"
      ++ optional s.spot
      ++ "|"
      ++ health_text s.data_health
      ++ "\n"

  abbrev hash_lines : List (ReplaySignal F) → String
  hash_lines [] = ""
  hash_lines (s ∷ signals) = hash_line s ++ hash_lines signals

  unfoldable pub replay_hash : (String → String) → List (ReplaySignal F) → String
  replay_hash sha256 signals = sha256 (hash_lines signals)

  module _ (config : AppConfig F) where
    -- Configured to skip the data before the window.
    abbrev pub skips : Timestamp → Bool
    skips now =
        not config.replay_include_pre_signal_data
        && ltb (time_of now) (parse_hhmm config.signal_start_time)

    unfoldable pub evaluate_snapshot :
        MarketSnapshot F → Session F → Raises (Option (ReplaySignal F) × Session F)
    evaluate_snapshot snap s =
        let bars = append_list s.bars (session_bar snap ∷ []) in
        do
          f ← build_features config snap bars s.pcr_hist s.prev_snapshot none
          result ← evaluate_and_apply s.memory f config snap.timestamp
          ok (
            some (signal_of snap f result.0),
            record s {
              bars = bars;
              pcr_hist = extended s.pcr_hist f.timestamp f.pcr.total_pcr;
              prev_snapshot = some snap;
              memory = result.1;
            },
          )

    abbrev pub in_session :
        MarketSnapshot F → Session F → Raises (Option (ReplaySignal F) × Session F)
    in_session snap s = if skips snap.timestamp then ok (none, s) else evaluate_snapshot snap s

    unfoldable pub replay_step :
        MarketSnapshot F → Session F → Raises (Option (ReplaySignal F) × Session F)
    replay_step snap s = in_session snap (enter (date_of snap.timestamp) s)

    unfoldable pub replay_from :
        Session F → List (MarketSnapshot F) → Raises (List (ReplaySignal F) × Session F)
    replay_from s [] = ok ([], s)
    replay_from s (snap ∷ snaps) = do
      one ← replay_step snap s
      rest ← replay_from one.1 snaps
      ok (cons_signal one.0 rest.0, rest.1)

    -- The signals of ordered snapshots.
    unfoldable pub replay_ordered : List (MarketSnapshot F) → Raises (List (ReplaySignal F))
    replay_ordered snaps = do run ← replay_from blank snaps; ok run.0

    unfoldable pub replay_signals :
        (String → String)
        → List (MarketSnapshot F)
        → Bool
        → Raises (List (ReplaySignal F) × String × String)
    replay_signals sha256 snapshots strict = do
      feed ← replay_feed strict snapshots
      signals ← replay_ordered feed
      ok (signals, replay_hash sha256 signals, "sorted")
