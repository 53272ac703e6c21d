-- ===== src/Examples/Paper.antt =====
-- Tests and concrete cases for backend/paper and backend/replay.
use theta_plus.Base.{
  ◌+◌, ◌≡◌, refl, true, false, none, some, List, [], ◌∷◌, arith, length, map, All, take,
}
use theta_plus.Base.Int.{pos, ◌+ℤ◌, ◌-ℤ◌, ◌*ℤ◌}
use theta_plus.Clock.{minute, day, date_of}
use theta_plus.Market.{TrendState, MarketSnapshot}
use theta_plus.Engine.Models.{ce}
use theta_plus.Replay.Observation.{OptionObservation}
use theta_plus.Replay.Models.{ReplaySignal}
use theta_plus.Replay.Outcome.{
  observation_of, goal_of, stop_of, observations_from_snapshots, evaluate_outcome,
}
use theta_plus.Replay.Verdict.{Explains, evaluate_outcome-Explains}
use theta_plus.Replay.Excursions.{IsOrdered, IsWithin, evaluate_outcome-excursions}
use theta_plus.Replay.Lookahead.{Shown, observations_from_snapshots-Shown}
use theta_plus.Paper.Models.{target}
use theta_plus.Paper.Engine.{PaperBook, new_book, new_position, admit, open_from_decision, replace}
use theta_plus.Paper.Update.{closed, after_observation, advance, update}
use theta_plus.Paper.Local.{change_open, update_refines}
use theta_plus.Paper.Contract.{Follows}
use theta_plus.Paper.Soundness.{IsSound}
use theta_plus.Paper.Runs.{Run, opening, market, done, next, Run-new_book-IsSound, Run-Follows}
use theta_plus.Paper.Agreement.{live_state, watch, states, watch-evaluate_outcome}
use theta_plus.Examples.Values.{
  Num, cents, cents_Float, plain_Format, config, quote, rising, ten_o_clock,
}
use theta_plus.Examples.States.{entry_signal}

abbrev empty_book : PaperBook Num
empty_book = new_book "LIVE"

abbrev one_open : PaperBook Num
one_open = (open_from_decision config empty_book entry_signal (some rising) "S1" none "u1").1

-- The price rises above the target.
abbrev higher : OptionObservation Num
higher = record {
  timestamp = ten_o_clock + minute;
  ltp = cents (pos 14150);
  high = none;
  low = none;
}

abbrev steady : OptionObservation Num
steady = record {
  timestamp = ten_o_clock + minute;
  ltp = cents (pos 12060);
  high = some (cents (pos 12070));
  low = none;
}

abbrev one_ended : PaperBook Num
one_ended = (update config one_open (some higher) higher.timestamp false false).1

entered_at_the_ltp : map (λ p. p.entry_price) one_open.positions ≡ some (cents (pos 12050)) ∷ []
unfolding new_book open_from_decision new_position admit
entered_at_the_ltp = refl

reached : states one_ended ≡ target ∷ []
unfolding new_book open_from_decision new_position admit update replace advance after_observation
    closed states ◌+ℤ◌ ◌-ℤ◌ ◌*ℤ◌
reached = refl

opened_then_closed : Run config empty_book one_ended
unfolding new_book
opened_then_closed =
    next empty_book one_open one_ended
      (opening empty_book entry_signal (some rising) "S1" none "u1" refl)
      (next one_open one_ended one_ended
        (market one_open (some higher) higher.timestamp false false) (done one_ended))

Run-new_book-IsSound_example : IsSound config one_ended
Run-new_book-IsSound_example = Run-new_book-IsSound config "LIVE" one_ended opened_then_closed

then_closed : Run config one_open one_ended
then_closed =
    next one_open one_ended one_ended (market one_open (some higher) higher.timestamp false false)
      (done one_ended)

only_opened : Run config empty_book one_open
unfolding new_book
only_opened =
    next empty_book one_open one_open
      (opening empty_book entry_signal (some rising) "S1" none "u1" refl) (done one_open)

Run-Follows_example : Follows one_open.positions one_ended.positions
Run-Follows_example =
    Run-Follows config one_open one_ended (Run-new_book-IsSound config "LIVE" one_open only_opened)
      then_closed

update_refines_example : one_ended ≡ record one_open {
  positions =
      change_open
        (λ p. advance config p (some higher) higher.timestamp false false)
        one_open.positions;
}
unfolding new_book open_from_decision new_position admit
update_refines_example =
    update_refines config one_open (some higher) higher.timestamp false false (refl, tt)

abbrev replayed : ReplaySignal Num
replayed = record {
  signal_id = "S1";
  snapshot_id = "N1";
  timestamp = ten_o_clock;
  instrument = "NIFTY";
  expiry = "1970-01-21";
  spot = some entry_signal.spot;
  vwap = entry_signal.vwap;
  total_pcr = entry_signal.pcr;
  pcr_trend = TrendState.up;
  put_oi = none;
  call_oi = none;
  ce_score = entry_signal.ce_score;
  pe_score = entry_signal.pe_score;
  ce_max_score = entry_signal.ce_max_score;
  pe_max_score = entry_signal.pe_max_score;
  decision = entry_signal.decision;
  state = entry_signal.state;
  reason = "";
  atm = some (pos 24500);
  above_vwap = true;
  below_vwap = false;
  data_health = entry_signal.data_health;
  strategy_version = "1";
  feature_engine_version = "1";
  config_version = "1";
  rule_results = [];
}

watch-evaluate_outcome_example :
    states (watch config one_open (steady ∷ higher ∷ []))
    ≡ live_state
        (evaluate_outcome config replayed
          (some (cents (pos 12050)))
          (steady ∷ higher ∷ [])
          none).exit_state
      ∷ []
watch-evaluate_outcome_example =
    watch-evaluate_outcome config "LIVE" entry_signal (some rising) "S1" "u1" none
      (cents (pos 12050)) replayed (steady ∷ higher ∷ []) refl refl refl (omega arith)

-- The market one minute after the signal, and on the day after.
abbrev shows_later : MarketSnapshot Num
shows_later = record {
  snapshot_id = "N2";
  timestamp = ten_o_clock + minute;
  instrument = "NIFTY";
  tick = record {
    timestamp = ten_o_clock + minute;
    symbol = "NIFTY";
    opening = cents (pos 2450000);
    high = cents (pos 2451000);
    low = cents (pos 2449000);
    close = cents (pos 2450500);
    volume = pos 10;
  };
  chain = record {
    symbol = "NIFTY";
    timestamp = ten_o_clock + minute;
    expiry = "1970-01-21";
    strike_interval = pos 50;
    rows = record { strike = pos 24500; ce = quote; pe = quote } ∷ [];
  };
}

abbrev shows_entry : MarketSnapshot Num
shows_entry = record shows_later { snapshot_id = "N1"; timestamp = ten_o_clock }

abbrev next_day : MarketSnapshot Num
next_day = record shows_later { timestamp = ten_o_clock + day }

abbrev shown_days : List (MarketSnapshot Num)
shown_days = shows_entry ∷ shows_later ∷ next_day ∷ []

one_shown :
    length (observations_from_snapshots shown_days (pos 24500) ce ten_o_clock "1970-01-21" "NIFTY")
    ≡ 1
unfolding observations_from_snapshots observation_of date_of
one_shown = refl

observations_from_snapshots-Shown_example :
    Shown
      (pos 24500)
      ce
      ten_o_clock
      "1970-01-21"
      "NIFTY"
      shown_days
      (observations_from_snapshots shown_days (pos 24500) ce ten_o_clock "1970-01-21" "NIFTY")
observations_from_snapshots-Shown_example =
    observations_from_snapshots-Shown (pos 24500) ce ten_o_clock "1970-01-21" "NIFTY" shown_days

evaluate_outcome-Explains_example :
    let o =
      evaluate_outcome config replayed (some (cents (pos 12050))) (steady ∷ higher ∷ []) none in
    Explains
      (goal_of config (cents (pos 12050)))
      (stop_of config (cents (pos 12050)))
      none
      0
      (steady ∷ higher ∷ [])
      o.exit_state
      o.observations_used
evaluate_outcome-Explains_example =
    evaluate_outcome-Explains config replayed (cents (pos 12050)) steady (higher ∷ []) none refl

abbrev no_observations : List (OptionObservation Num)
no_observations = []

cents-IsOrdered : IsOrdered cents_Float
cents-IsOrdered = record { irreflexive = λ a. ground arith; transitive = λ a b c h k. ground arith }

evaluate_outcome-excursions_example :
    let o =
      evaluate_outcome config replayed (some (cents (pos 12050))) (steady ∷ higher ∷ []) none in
    All (IsWithin (cents (pos 12050)) o.mfe o.mae) (take o.observations_used (steady ∷ higher ∷ []))
evaluate_outcome-excursions_example =
    evaluate_outcome-excursions cents-IsOrdered config replayed (cents (pos 12050)) steady
      (higher ∷ []) none refl
