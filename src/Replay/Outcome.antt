-- ===== src/Replay/Outcome.antt =====
-- backend/replay/outcome_engine.py: the walk through the observations of a signal's option leg.
use mathlib.Core.Option
use theta_plus.Base.{
  ℕ, suc, Bool, false, not, ◌&&◌, ◌||◌, Option, none, some, String, List, [], ◌∷◌, if◌then◌else◌,
  ltb, leb, ◌==◌, str_eq, find_first,
}
use theta_plus.Base.Int.{ℤ, pos, sub_ℕ}
use theta_plus.Base.Float.{Float, f_min, f_max}
use theta_plus.Clock.{Timestamp, date_of}
use theta_plus.Config.{AppConfig}
use theta_plus.Market.{OptionChainRow, MarketSnapshot}
use theta_plus.Engine.Models.{Side, side_of}
use theta_plus.Replay.Observation.{OptionObservation, hi, lo, row_at, leg}
use theta_plus.Replay.Models.{
  ReplaySignal, OutcomeState, target, stoploss, invalidated, expired, ambiguous, no_data,
  SignalOutcome,
}

abbrev pub cons_some : {A : Type 0} → Option A → List A → List A
cons_some none xs = xs
cons_some (some x) xs = x ∷ xs

-- What the walk has seen so far.
pub record Walk (F : Type 0) : Type 0 where
  pub used : ℕ
  pub mfe : F
  pub mae : F

module _ {F : Type 0} where
  abbrev observe : Side → Timestamp → OptionChainRow F → OptionObservation F
  observe side ts row = record { timestamp = ts; ltp = (leg side row).ltp; high = none; low = none }

  -- One snapshot of the loop of `observations_from_snapshots`: `none` for its `continue`s.
  unfoldable pub observation_of :
      ℤ → Side → Timestamp → String → String → MarketSnapshot F → Option (OptionObservation F)
  observation_of strike side cutoff expiry instrument snap =
      if leb snap.timestamp cutoff || not (date_of snap.timestamp == date_of cutoff)
      then none
      else (if not (str_eq snap.instrument instrument) || not (str_eq snap.chain.expiry expiry)
          then none
          else Option.map (observe side snap.timestamp) (row_at strike snap.chain.rows))

  unfoldable pub observations_from_snapshots :
      List (MarketSnapshot F) → ℤ → Side → Timestamp → String → String → List (OptionObservation F)
  observations_from_snapshots [] strike side after expiry instrument = []
  observations_from_snapshots (snap ∷ snaps) strike side after expiry instrument =
      cons_some (observation_of strike side after expiry instrument snap)
        (observations_from_snapshots snaps strike side after expiry instrument)

  abbrev is_entry_of : ReplaySignal F → MarketSnapshot F → Bool
  is_entry_of signal snap =
      str_eq snap.snapshot_id signal.snapshot_id
      && str_eq snap.instrument signal.instrument
      && str_eq snap.chain.expiry signal.expiry

  abbrev entry_in : ReplaySignal F → Option ℤ → Option (MarketSnapshot F) → Option F
  entry_in signal (some strike) (some snap) =
      Option.map (λ row. (leg (side_of signal.decision) row).ltp) (row_at strike snap.chain.rows)
  entry_in signal _ _ = none

  -- The option price at the signal's own snapshot.
  unfoldable pub entry_price : List (MarketSnapshot F) → ReplaySignal F → Option F
  entry_price snapshots signal =
      entry_in signal signal.atm (find_first (is_entry_of signal) snapshots)

module _ {F : Type 0} ⦃fl : Float F⦄ where
  -- An outcome without an exit.
  abbrev pub unended : ReplaySignal F → Option F → Option F → Option F → String → SignalOutcome F
  unended signal entry goal stop note = record {
    signal_id = signal.signal_id;
    timestamp = signal.timestamp;
    side = side_of signal.decision;
    strike = signal.atm;
    entry = entry;
    target = goal;
    stoploss = stop;
    exit_price = none;
    exit_state = no_data;
    exit_timestamp = none;
    mfe = none;
    mae = none;
    gross_points = none;
    observations_used = 0;
    time_to_target = none;
    time_to_stop = none;
    time_to_invalidation = none;
    note = note;
  }

  -- `max(mfe, round(obs.hi - entry, 2))` and `min(mae, round(obs.lo - entry, 2))`
  abbrev pub seen : F → Walk F → OptionObservation F → Walk F
  seen entry walk obs = record {
    used = suc walk.used;
    mfe = f_max walk.mfe (fl.round2 (fl.sub (hi obs) entry));
    mae = f_min walk.mae (fl.round2 (fl.sub (lo obs) entry));
  }

  -- `inv_ts is not None and obs.timestamp > inv_ts`
  abbrev pub past : Option Timestamp → OptionObservation F → Bool
  past none obs = false
  past (some inv) obs = ltb inv obs.timestamp

  module _ (signal : ReplaySignal F) (entry goal stop : F) where
    abbrev base : String → SignalOutcome F
    base note = unended signal (some entry) (some goal) (some stop) note

    abbrev ends : OutcomeState → Option Timestamp → Option F → Walk F → String → SignalOutcome F
    ends state at price walk note = record (base note) {
      exit_state = state;
      exit_timestamp = at;
      exit_price = price;
      mfe = some walk.mfe;
      mae = some walk.mae;
      observations_used = walk.used;
    }

    abbrev since : Timestamp → Option ℤ
    since ts = some (sub_ℕ ts signal.timestamp)

    -- The `for` loop from a state of the walk on, and what comes after it. `last` is the
    -- observation before the rest.
    unfoldable pub walk_from :
        Option Timestamp
        → Walk F
        → OptionObservation F
        → List (OptionObservation F)
        → SignalOutcome F
    walk_from inv walk last [] =
        record (ends expired (some last.timestamp) (some last.ltp) walk
          "session data exhausted without target/stop touch") {
            gross_points = some (fl.round2 (fl.sub last.ltp entry));
          }
    walk_from inv walk last (obs ∷ rest) =
        let walk' = seen entry walk obs in
        let later = walk_from inv walk' obs rest in
        let hit_target = fl.le goal (hi obs) in
        let hit_stop = fl.le (lo obs) stop in
        if past inv obs
        then (record (ends invalidated inv none walk'
            "signal invalidated by the Phase C rules before an exit touch") {
              time_to_invalidation = Option.map (λ ts. sub_ℕ ts signal.timestamp) inv;
            })
        else (if hit_target && hit_stop
            then ends ambiguous (some obs.timestamp) none walk'
                "target and stop both reachable within one observation; ordering undeterminable at this resolution (conservative: AMBIGUOUS)"
            else (if hit_target
                then (record (ends target (some obs.timestamp) (some goal) walk' "") {
                  gross_points = some (fl.round2 (fl.sub goal entry));
                  time_to_target = since obs.timestamp;
                })
                else (if hit_stop
                    then (record (ends stoploss (some obs.timestamp) (some stop) walk' "") {
                      gross_points = some (fl.round2 (fl.sub stop entry));
                      time_to_stop = since obs.timestamp;
                    })
                    else later)))

    unfoldable pub walk_all : Option Timestamp → List (OptionObservation F) → SignalOutcome F
    walk_all inv [] = base "no future option observations; no outcome invented"
    walk_all inv (obs ∷ rest) =
        walk_from inv (record { used = 0; mfe = fl.nought; mae = fl.nought }) obs (obs ∷ rest)

  module _ (config : AppConfig F) where
    abbrev pub goal_of : F → F
    goal_of entry = fl.round2 (fl.add entry (fl.of_int (pos config.target_points)))

    abbrev pub stop_of : F → F
    stop_of entry = fl.round2 (fl.sub entry (fl.of_int (pos config.stoploss_points)))

    unfoldable pub evaluate_outcome :
        ReplaySignal F → Option F → List (OptionObservation F) → Option Timestamp → SignalOutcome F
    evaluate_outcome signal none observations inv =
        unended signal none none none "entry option LTP unavailable; no outcome invented"
    evaluate_outcome signal (some entry) observations inv =
        if fl.le entry fl.nought
        then unended signal none none none "entry option LTP unavailable; no outcome invented"
        else walk_all signal entry (goal_of entry) (stop_of entry) inv observations
