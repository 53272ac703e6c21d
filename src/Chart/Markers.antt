-- ===== src/Chart/Markers.antt =====
-- backend/chart/markers.py and the marker of backend/models/chart_models.py.
use Prim.Native.String.{◌++◌}
use theta_plus.Base.{
  Bool, true, false, Option, none, some, String, List, [], ◌∷◌, if◌then◌else◌, leb, ltb, truthy,
  select,
}
use theta_plus.Base.Int.{ℤ, pos, eq_ℤ, max_ℤ}
use theta_plus.Base.Float.{Float, Format}
use theta_plus.Base.Sorting.{sorted_by}
use theta_plus.Clock.{Timestamp}
use theta_plus.Market.{MarketFeatures, HealthCode, TrendState}
use theta_plus.Engine.Models.{
  Side, ce, pe, Decision, ce_setup, pe_setup, waiting, ce_invalidated, pe_invalidated, is_setup,
  is_invalidation, decision_text, SignalState, SignalDecision,
}
use theta_plus.Paper.Engine.{origin_label}
use theta_plus.Replay.Models.{ReplaySignal}
use theta_plus.Replay.Session.{join_reasons}

pub data MarkerKind : Type 0 where
  setup invalidation wait : MarkerKind

pub record ChartSignalMarker (F : Type 0) : Type 0 where
  pub signal_id : String
  pub timestamp : Timestamp
  pub symbol : String
  pub decision : Decision
  pub state : SignalState
  pub marker_kind : MarkerKind
  pub side : Option Side
  pub spot : Option F
  pub vwap : Option F
  pub vwap_distance : Option F
  pub pcr : Option F
  pub atm_pcr : Option F
  pub pcr_trend : Option TrendState
  pub atm : Option ℤ
  pub ce_oi : Option ℤ
  pub ce_oi_change : Option ℤ
  pub pe_oi : Option ℤ
  pub pe_oi_change : Option ℤ
  pub score : ℤ
  pub ce_score : ℤ
  pub pe_score : ℤ
  pub max_score : ℤ
  pub reason : String
  pub data_health : HealthCode
  pub stale : Bool
  pub strategy_version : String
  pub feature_version : String
  pub config_version : String
  pub data_origin : String
  pub data_origin_label : String
  pub origin_signal_id : Option String
  pub invalidation_timestamp : Option Timestamp
  pub invalidation_reason : Option String

abbrev pub kind_of : Decision → MarkerKind
kind_of ce_setup = setup
kind_of pe_setup = setup
kind_of waiting = wait
kind_of ce_invalidated = invalidation
kind_of pe_invalidated = invalidation

abbrev side_for : Decision → Option Side → Option Side
side_for ce_setup qualifying = some ce
side_for ce_invalidated qualifying = some ce
side_for pe_setup qualifying = some pe
side_for pe_invalidated qualifying = some pe
side_for waiting qualifying = qualifying

abbrev score_for : Option Side → ℤ → ℤ → ℤ
score_for none ce_score pe_score = max_ℤ ce_score pe_score
score_for (some ce) ce_score pe_score = ce_score
score_for (some pe) ce_score pe_score = pe_score

abbrev is_stale_health : HealthCode → Bool
is_stale_health HealthCode.stale = true
is_stale_health _ = false

-- `n or 100`
abbrev or_hundred : ℤ → ℤ
or_hundred n = if eq_ℤ n (pos 0) then pos 100 else n

abbrev if_invalidation : {A : Type 0} → MarkerKind → Option A → Option A
if_invalidation invalidation a = a
if_invalidation _ a = none

-- `given or made`
abbrev given_or : Option String → String → String
given_or none made = made
given_or (some s) made = if truthy s then s else made

module _ {F : Type 0} ⦃fl : Float F⦄ ⦃fm : Format F⦄ where
  -- Of the origin of the data, `lowercase` is what `lower()` makes.
  abbrev pub signal_id_for : SignalDecision F → String → String
  signal_id_for d lowercase =
      lowercase ++ "-" ++ fm.isoformat d.timestamp ++ "-" ++ decision_text d.decision

  abbrev distance_of : Option F → Option F → Option F
  distance_of none vwap = none
  distance_of (some spot) none = none
  distance_of (some spot) (some vwap) = some (fl.round2 (fl.sub spot vwap))

  abbrev bare_marker :
      SignalDecision F → String → String → String → Option String → ChartSignalMarker F
  bare_marker d id lowercase data_origin origin_signal_id =
      let kind = kind_of d.decision in
      let side = side_for d.decision d.qualifying_side in
      record {
        signal_id = id;
        timestamp = d.timestamp;
        symbol = d.symbol;
        decision = d.decision;
        state = d.state;
        marker_kind = kind;
        side = side;
        spot = some d.spot;
        vwap = d.vwap;
        vwap_distance = distance_of (some d.spot) d.vwap;
        pcr = d.pcr;
        atm_pcr = none;
        pcr_trend = d.pcr_trend;
        atm = some d.atm;
        ce_oi = none;
        ce_oi_change = none;
        pe_oi = none;
        pe_oi_change = none;
        score = score_for side d.ce_score d.pe_score;
        ce_score = d.ce_score;
        pe_score = d.pe_score;
        max_score = or_hundred d.ce_max_score;
        reason = join_reasons d.reasons;
        data_health = d.data_health;
        stale = is_stale_health d.data_health;
        strategy_version = d.strategy_version;
        feature_version = d.feature_engine_version;
        config_version = d.config_version;
        data_origin = data_origin;
        data_origin_label = origin_label data_origin;
        origin_signal_id = if_invalidation kind origin_signal_id;
        invalidation_timestamp = if_invalidation kind (some d.timestamp);
        invalidation_reason = if_invalidation kind (some (join_reasons d.reasons));
      }

  abbrev with_features : Option (MarketFeatures F) → ChartSignalMarker F → ChartSignalMarker F
  with_features none m = m
  with_features (some f) m = record m {
    vwap_distance = f.vwap.distance;
    atm_pcr = f.pcr.atm_pcr;
    ce_oi = some f.oi.call_oi;
    ce_oi_change = f.oi.call_oi_change;
    pe_oi = some f.oi.put_oi;
    pe_oi_change = f.oi.put_oi_change;
  }

  unfoldable pub marker_from_decision :
      SignalDecision F
      → Option (MarketFeatures F)
      → String
      → String
      → Option String
      → Option String
      → ChartSignalMarker F
  marker_from_decision d features lowercase data_origin origin_signal_id signal_id =
      with_features features (
        bare_marker d (given_or signal_id (signal_id_for d lowercase)) lowercase data_origin
          origin_signal_id)

  unfoldable pub marker_from_replay_signal :
      ReplaySignal F → Option String → String → ChartSignalMarker F
  marker_from_replay_signal s origin_signal_id data_origin =
      let kind = kind_of s.decision in
      let side = side_for s.decision none in
      record {
        signal_id = s.signal_id;
        timestamp = s.timestamp;
        symbol = s.instrument;
        decision = s.decision;
        state = s.state;
        marker_kind = kind;
        side = side;
        spot = s.spot;
        vwap = s.vwap;
        vwap_distance = distance_of s.spot s.vwap;
        pcr = s.total_pcr;
        atm_pcr = none;
        pcr_trend = some s.pcr_trend;
        atm = s.atm;
        ce_oi = s.call_oi;
        ce_oi_change = none;
        pe_oi = s.put_oi;
        pe_oi_change = none;
        score = score_for side s.ce_score s.pe_score;
        ce_score = s.ce_score;
        pe_score = s.pe_score;
        max_score = or_hundred s.ce_max_score;
        reason = s.reason;
        data_health = s.data_health;
        stale = is_stale_health s.data_health;
        strategy_version = s.strategy_version;
        feature_version = s.feature_engine_version;
        config_version = s.config_version;
        data_origin = data_origin;
        data_origin_label = origin_label data_origin;
        origin_signal_id = if_invalidation kind origin_signal_id;
        invalidation_timestamp = if_invalidation kind (some s.timestamp);
        invalidation_reason = if_invalidation kind (some s.reason);
      }

-- `marker.origin_signal_id or last_setup`
abbrev pub origin_or : Option String → Option String → Option String
origin_or none last_setup = last_setup
origin_or (some s) last_setup = if truthy s then some s else last_setup

abbrev is_shown : Decision → Bool
is_shown d = if is_setup d then true else is_invalidation d

module _ {F : Type 0} where
  abbrev pub marker_le : ChartSignalMarker F → ChartSignalMarker F → Bool
  marker_le a b = leb a.timestamp b.timestamp

  abbrev pub linked : MarkerKind → Option String → ChartSignalMarker F → ChartSignalMarker F
  linked invalidation last_setup m = record m {
    origin_signal_id = origin_or m.origin_signal_id last_setup;
  }
  linked _ last_setup m = m

  abbrev pub next_setup : MarkerKind → Option String → ChartSignalMarker F → Option String
  next_setup setup last_setup m = some m.signal_id
  next_setup _ last_setup m = last_setup

  unfoldable pub link_from : Option String → List (ChartSignalMarker F) → List (ChartSignalMarker F)
  link_from last_setup [] = []
  link_from last_setup (m ∷ markers) =
      linked m.marker_kind last_setup m ∷ link_from (next_setup m.marker_kind last_setup m) markers

  unfoldable pub link_invalidations : List (ChartSignalMarker F) → List (ChartSignalMarker F)
  link_invalidations markers = link_from none (sorted_by marker_le markers)

  unfoldable pub visible_markers : List (ChartSignalMarker F) → Bool → List (ChartSignalMarker F)
  visible_markers markers include_wait =
      let ordered = sorted_by marker_le markers in
      if include_wait then ordered else select (λ m. is_shown m.decision) ordered

  unfoldable pub latest_timestamp : List (ChartSignalMarker F) → Option Timestamp
  latest_timestamp [] = none
  latest_timestamp (m ∷ markers) = elim (latest_timestamp markers) [
    | none ↦ some m.timestamp
    | some t ↦ some (if ltb m.timestamp t then t else m.timestamp)
  ]
