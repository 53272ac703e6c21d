-- ===== src/Examples/Engine.antt =====
-- The theorems about the signal engine (backend/engines), applied to the test data.
use theta_plus.Base.{
  ◌+◌, ◌*◌, ◌-◌, ◌≡◌, refl, sym, ap, ◌∙◌, ◌↔◌, true, false, none, some, List, [], ◌∷◌, arith, All,
  elem, map,
}
use theta_plus.Base.Int.{pos, ◌≤ℤ◌, ◌+ℤ◌}
use theta_plus.Base.Raises.{ok, ok_injective, Returns}
use theta_plus.Clock.{plus_minutes, Timestamp, minute, time_of}
use theta_plus.Market.{HealthCode, MarketFeatures}
use theta_plus.Engine.Models.{
  wait, entry_candidate, active, invalidated, ce, pe, ce_setup, waiting, is_setup, is_invalidation,
  SignalDecision,
}
use theta_plus.Engine.Memory.{SignalMemory, fresh, apply, advance}
use theta_plus.Engine.Memory.Laws.{IsValid}
use theta_plus.Engine.Rules.{evaluate_ce_rules, evaluate_pe_rules}
use theta_plus.Engine.Rules.Points.{
  mirror, points, NonNegative, total, evaluate_pe_rules-mirror, score_rules_bounds,
}
use theta_plus.Engine.Score.{score_rules}
use theta_plus.Engine.Signal.{score_sides, evaluate, evaluate_and_apply}
use theta_plus.Engine.Signal.Setup.{Confirmed, evaluate-setup_iff}
use theta_plus.Engine.Signal.Expiry.{after_end_code, evaluate-quiet}
use theta_plus.Engine.StateMachine.{transition}
use theta_plus.Engine.Session.{
  IsComplete, tick_parts, is_over, evaluate_and_apply-not_over, evaluate_and_apply_total,
  exit_setup_loses_cooldown,
}
use theta_plus.Engine.Session.Spacing.{Entry, done, tick, Run-spacing}
use theta_plus.Examples.Values.{Num, cents, cents_Float, plain_Format, config, rising, ten_o_clock}

abbrev call_decision : SignalDecision Num
call_decision = record {
  timestamp = ten_o_clock;
  symbol = "NIFTY";
  decision = ce_setup;
  state = wait;
  ce_score = pos 100;
  pe_score = pos 10;
  ce_max_score = pos 100;
  pe_max_score = pos 100;
  qualifying_side = some ce;
  reasons = "CE" ∷ [];
  ce_rules = [];
  pe_rules = [];
  atm = pos 24500;
  spot = cents (pos 2450500);
  vwap = some (cents (pos 2440000));
  pcr = some (cents (pos 120));
  pcr_trend = none;
  strategy_version = "1";
  feature_engine_version = "1";
  config_version = "1";
  data_health = HealthCode.healthy;
  cooldown_until = none;
}

-- Calls alone reach the minimum score.
confirmed : Confirmed rising config fresh ten_o_clock ce
unfolding score_sides score_rules evaluate_ce_rules evaluate_pe_rules ◌+ℤ◌ time_of
confirmed = record {
  enabled = refl;
  healthy = refl;
  in_window = record { started = omega arith; not_over = omega arith; not_at_end = λ e. cc };
  cooled = tt;
  alone = (omega arith, omega arith);
  free = tt;
}

abbrev complete : IsComplete config rising
complete = λ h. refl

-- A call setup at ten on a fresh memory, and the tick of the next minute.
abbrev first : SignalDecision Num × SignalMemory Num
first = (evaluate_and_apply_total config fresh rising ten_o_clock complete (omega arith)).0

abbrev first_ok : evaluate_and_apply fresh rising config ten_o_clock ≡ ok first
first_ok = (evaluate_and_apply_total config fresh rising ten_o_clock complete (omega arith)).1

-- A tick on a market that confirms a call emits the call.
Confirmed-tick :
    (m m' : SignalMemory Num) (d : SignalDecision Num)
    → Confirmed rising config m ten_o_clock ce
    → evaluate_and_apply m rising config ten_o_clock ≡ ok (d, m')
    → is_setup d.decision ≡ true
Confirmed-tick m m' d c e =
    let (raw, evaluated, applied, same) = tick_parts config m rising ten_o_clock e in
    let (d', evaluated', emitted) = (evaluate-setup_iff rising config m ten_o_clock ce).1 c in
    let agree = ok_injective (sym evaluated ∙ evaluated') in ground arith

abbrev stale_market : MarketFeatures Num
stale_market = record rising {
  data_health = record rising.data_health { status = HealthCode.stale };
}

-- Stale data makes every tick wait.
stale_waits :
    (m m' : SignalMemory Num) (now : Timestamp) (d : SignalDecision Num)
    → evaluate_and_apply m stale_market config now ≡ ok (d, m')
    → d.decision ≡ waiting
unfolding evaluate
stale_waits m m' now d e =
    let (raw, evaluated, applied, same) = tick_parts config m stale_market now e in ground arith

abbrev second : SignalDecision Num × SignalMemory Num
second =
    (evaluate_and_apply_total config first.1 stale_market (ten_o_clock + minute) (λ h. refl)
      (omega arith)).0

second_ok : evaluate_and_apply first.1 stale_market config (ten_o_clock + minute) ≡ ok second
second_ok =
    (evaluate_and_apply_total config first.1 stale_market (ten_o_clock + minute) (λ h. refl)
      (omega arith)).1

abbrev ended : SignalMemory Num
ended = record fresh {
  state = invalidated;
  current_side = some pe;
  signal_timestamp = some (ten_o_clock - 20 * minute);
  cooldown_until = some (ten_o_clock - 5 * minute);
}

abbrev third : SignalDecision Num × SignalMemory Num
third = (evaluate_and_apply_total config ended rising ten_o_clock complete (omega arith)).0

third_ok : evaluate_and_apply ended rising config ten_o_clock ≡ ok third
third_ok = (evaluate_and_apply_total config ended rising ten_o_clock complete (omega arith)).1

abbrev fourth : SignalDecision Num × SignalMemory Num
fourth =
    (evaluate_and_apply_total config third.1 stale_market (ten_o_clock + minute) (λ h. refl)
      (omega arith)).0

fourth_ok : evaluate_and_apply third.1 stale_market config (ten_o_clock + minute) ≡ ok fourth
fourth_ok =
    (evaluate_and_apply_total config third.1 stale_market (ten_o_clock + minute) (λ h. refl)
      (omega arith)).1

ended-Confirmed : Confirmed rising config ended ten_o_clock ce
ended-Confirmed = record {
  enabled = refl;
  healthy = refl;
  in_window = confirmed.in_window;
  cooled = omega arith;
  alone = confirmed.alone;
  free = tt;
}

abbrev candidate : SignalMemory Num
candidate = record fresh {
  state = entry_candidate;
  current_side = some ce;
  signal_timestamp = some ten_o_clock;
  cooldown_until = some (ten_o_clock + 15 * minute);
}

abbrev after_call : SignalMemory Num
after_call = record {
  state = active;
  current_side = some ce;
  signal_timestamp = some ten_o_clock;
  cooldown_until = some (ten_o_clock + 15 * minute);
  signal_pcr = some (cents (pos 120));
  last_decision = some ce_setup;
}

applied_call : apply candidate call_decision ten_o_clock 15 ≡ ok after_call
unfolding apply transition advance plus_minutes
applied_call = refl

candidate-IsValid : IsValid candidate
candidate-IsValid = ground arith

evaluate_pe_rules-mirror_example :
    map points (evaluate_pe_rules rising config)
    ≡ map points (evaluate_ce_rules (mirror rising) config)
evaluate_pe_rules-mirror_example = evaluate_pe_rules-mirror rising config

weights-NonNegative : NonNegative config.weights
weights-NonNegative = ground arith

score_rules_bounds_example :
    (pos 0 ≤ℤ (score_rules (evaluate_ce_rules rising config)).0)
    × ((score_rules (evaluate_ce_rules rising config)).0
        ≤ℤ (score_rules (evaluate_ce_rules rising config)).1)
    × ((score_rules (evaluate_ce_rules rising config)).1 ≡ total config.weights)
    × (pos 0 ≤ℤ (score_rules (evaluate_pe_rules rising config)).0)
    × ((score_rules (evaluate_pe_rules rising config)).0
        ≤ℤ (score_rules (evaluate_pe_rules rising config)).1)
    × ((score_rules (evaluate_pe_rules rising config)).1 ≡ total config.weights)
score_rules_bounds_example = score_rules_bounds rising config weights-NonNegative

evaluate-setup_iff_example :
    ((d : SignalDecision Num) × (evaluate rising config fresh ten_o_clock ≡ ok d)
      × (d.decision ≡ ce_setup))
    ↔ Confirmed rising config fresh ten_o_clock ce
evaluate-setup_iff_example = evaluate-setup_iff rising config fresh ten_o_clock ce

evaluate_and_apply_total_example : Returns (evaluate_and_apply fresh rising config ten_o_clock)
evaluate_and_apply_total_example =
    evaluate_and_apply_total config fresh rising ten_o_clock complete (omega arith)

evaluate_and_apply-not_over_example : is_over first.1.state ≡ false
evaluate_and_apply-not_over_example =
    evaluate_and_apply-not_over config fresh rising ten_o_clock refl first_ok

exit_setup_loses_cooldown_example :
    (third.1.state ≡ invalidated)
    × (third.1.cooldown_until ≡ some (ten_o_clock + 15 * minute))
    × (fourth.1.state ≡ wait)
    × (fourth.1.cooldown_until ≡ none)
exit_setup_loses_cooldown_example =
    exit_setup_loses_cooldown config ended third.1 fourth.1 rising stale_market ten_o_clock
      (ten_o_clock + minute) third.0 fourth.0 refl third_ok
      (Confirmed-tick ended third.1 third.0 ended-Confirmed third_ok) fourth_ok
      (stale_waits third.1 fourth.1 (ten_o_clock + minute) fourth.0 fourth_ok)

abbrev later : List (Entry Num)
later = record { now = ten_o_clock + minute; decision = second.0 } ∷ []

Run-spacing_example : All (λ e. is_setup e.decision.decision ≡ false) later
Run-spacing_example =
    Run-spacing config fresh rising ten_o_clock refl first_ok
      (Confirmed-tick fresh first.1 first.0 confirmed first_ok)
      (tick stale_market (ten_o_clock + minute) second_ok done)
      (
        (
          omega arith,
          ap is_invalidation
              (stale_waits first.1 second.1 (ten_o_clock + minute) second.0 second_ok),
        ),
        tt,
      )

evaluate-quiet_example :
    elem after_end_code ("SYSTEM_DISABLED: kill switch is off — no signals can be generated" ∷ [])
    ≡ false
unfolding evaluate
evaluate-quiet_example =
    evaluate-quiet (record config { enabled = false }) fresh rising ten_o_clock _ refl refl
