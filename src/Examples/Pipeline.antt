-- ===== src/Examples/Pipeline.antt =====
-- Tests and concrete cases for backend/pipeline.py.
use theta_plus.Base.{◌≡◌, refl, ap, true, false, none, some, [], ◌∷◌, take}
use theta_plus.Base.Int.{pos, ◌*ℤ◌}
use theta_plus.Base.Raises.{ok}
use theta_plus.Clock.{time_of}
use theta_plus.Engine.Memory.{fresh}
use theta_plus.Features.Health.{data_age_seconds}
use theta_plus.Paper.Engine.{new_book}
use theta_plus.Pipeline.Tick.{Pipeline, FeedAnswer, count_bars, tick, act_on, after_decision}
use theta_plus.Pipeline.Current.{IsCurrent, Shows, tick-IsCurrent}
use theta_plus.Pipeline.Sending.{IsAccounted, tick-IsAccounted, tick-after}
use theta_plus.Examples.Values.{Num, cents_Float, plain_Format, ten_o_clock, setting}
use theta_plus.Examples.States.{ready}
use theta_plus.Examples.Features.{
  snapshot, bar, rising_history, built, built_ok, built_now, ticked, ticked_ok,
}

abbrev waking : Pipeline Num (Unit {0})
waking = record {
  memory = fresh;
  features = none;
  decision = none;
  pcr_hist = rising_history;
  prev_snapshot = none;
  feed_failed = false;
  paper = new_book "LIVE";
  execution = ready;
}

abbrev answer : FeedAnswer Num
answer = record { snapshot = snapshot; bars = bar ∷ bar ∷ []; vwap_bars = none }

all_bars : take (count_bars ten_o_clock) (bar ∷ bar ∷ []) ≡ bar ∷ bar ∷ []
unfolding time_of
all_bars = refl

no_age :
    cents_Float.le
      (data_age_seconds ten_o_clock ten_o_clock)
      (cents_Float.of_int (pos setting.config.max_data_age_seconds))
    ≡ true
unfolding data_age_seconds ◌*ℤ◌
no_age = refl

fresh_data :
    cents_Float.le
      (data_age_seconds built.timestamp ten_o_clock)
      (cents_Float.of_int (pos setting.config.max_data_age_seconds))
    ≡ true
fresh_data = rw built_now no_age

abbrev traded : Pipeline Num (Unit {0})
traded =
    act_on setting setting.config ticked.0 built snapshot "S1" "u1" ten_o_clock
      (after_decision setting setting.config answer built ticked.0 ticked.1 waking)

traded_ok : tick setting setting.config (some answer) "S1" "u1" ten_o_clock waking ≡ (ok tt, traded)
traded_ok =
    tick-after setting setting.config answer "S1" "u1" ten_o_clock waking built ticked.0 ticked.1
      (rw all_bars built_ok) ticked_ok fresh_data

tick-IsAccounted_example :
    IsAccounted setting setting.config
      (some answer)
      ten_o_clock
      waking
      (tick setting setting.config (some answer) "S1" "u1" ten_o_clock waking).1
tick-IsAccounted_example =
    tick-IsAccounted setting setting.config (some answer) "S1" "u1" ten_o_clock waking

tick-IsCurrent_example :
    IsCurrent setting setting.config ten_o_clock
      (tick setting setting.config (some answer) "S1" "u1" ten_o_clock waking).1
    × Shows setting setting.config
        (some answer)
        (tick setting setting.config (some answer) "S1" "u1" ten_o_clock waking).1
tick-IsCurrent_example =
    tick-IsCurrent setting setting.config (some answer) "S1" "u1" ten_o_clock ten_o_clock waking
      refl (ap (λ r. r.0) traded_ok)
