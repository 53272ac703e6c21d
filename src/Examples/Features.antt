-- ===== src/Examples/Features.antt =====
-- Tests and concrete cases for the feature engines.
use theta_plus.Base.{◌≡◌, refl, true, none, some, Option, List, [], ◌∷◌, arith, ◌∙◌, sym}
use theta_plus.Base.Int.{ℤ, pos, ◌+ℤ◌, ◌-ℤ◌, ◌*ℤ◌}
use theta_plus.Base.Dict.{lookup, insert}
use theta_plus.Base.Raises.{Raises, ok, raised, Returns, ok_injective}
use theta_plus.Clock.{Timestamp, time_of}
use theta_plus.Market.{MarketSnapshot, MarketFeatures, OptionChainRow, health_text, healthy}
use theta_plus.Engine.Models.{ce, is_setup, SignalDecision}
use theta_plus.Engine.Memory.{SignalMemory, fresh}
use theta_plus.Engine.Score.{score_rules}
use theta_plus.Engine.Rules.{evaluate_ce_rules, evaluate_pe_rules}
use theta_plus.Engine.Signal.{score_sides, evaluate_and_apply}
use theta_plus.Engine.Signal.Setup.{Confirmed, evaluate-setup_iff}
use theta_plus.Engine.Session.{tick_parts}
use theta_plus.Features.Chain.{
  calculate_atm, select_strikes, near, ratio, compute_pcr, pcr_change, pcr_trend_from_history,
}
use theta_plus.Features.Oi.{compute_oi}
use theta_plus.Features.Bars.{Bar, typical_price, compute_vwap, vwap_features, price_features}
use theta_plus.Features.Health.{
  is_stale, data_age_seconds, tick_issues, chain_issues, absorb, absorb_tick, absorb_chain,
  snapshot_health, severity, health_code, aggregate_health,
}
use theta_plus.Features.Build.{setdefault, overlay, contain, build_features}
use theta_plus.Features.Faultless.{
  IsFaultless, evaluate_and_apply-build_features, evaluate_and_apply-IsFaultless,
}
use theta_plus.Features.Totality.{build_features_total}
use theta_plus.Examples.Values.{
  Num, cents, cents_Float, plain_Format, config, quote, rising, ten_o_clock,
}

abbrev row : ℤ → OptionChainRow Num
row strike = record {
  strike = strike;
  ce = record quote { oi = pos 1000 };
  pe = record quote { oi = pos 1200 };
}

abbrev pub snapshot : MarketSnapshot Num
snapshot = record {
  snapshot_id = "N1";
  timestamp = ten_o_clock;
  instrument = "NIFTY";
  tick = record {
    timestamp = ten_o_clock;
    symbol = "NIFTY";
    opening = cents (pos 2450000);
    high = cents (pos 2451000);
    low = cents (pos 2449000);
    close = cents (pos 2450500);
    volume = pos 10;
  };
  chain = record {
    symbol = "NIFTY";
    timestamp = ten_o_clock;
    expiry = "1970-01-21";
    strike_interval = pos 50;
    rows = row (pos 24450) ∷ row (pos 24500) ∷ row (pos 24550) ∷ [];
  };
}

abbrev pub bar : Bar Num
bar = record {
  high = cents (pos 2401000);
  low = cents (pos 2399000);
  close = cents (pos 2400000);
  volume = cents (pos 1000);
  source = "ohlcv";
}

abbrev pub rising_history : List (Timestamp × Option Num)
rising_history = (ten_o_clock, some (cents (pos 100))) ∷ (ten_o_clock, some (cents (pos 110))) ∷ []

abbrev pub built_result : Raises (MarketFeatures Num)
built_result = build_features config snapshot (bar ∷ bar ∷ []) rising_history none none

pub value : Raises (MarketFeatures Num) → MarketFeatures Num
value (ok f) = f
value (raised _) = rising

abbrev pub built : MarketFeatures Num
built = value built_result

strikes_found : select_strikes (pos 24500) (pos 50) 1 ≡ pos 24450 ∷ pos 24500 ∷ pos 24550 ∷ []
unfolding select_strikes ◌+ℤ◌ ◌*ℤ◌
strikes_found = refl

atm_found : calculate_atm (cents (pos 2450500)) (pos 50) ≡ ok (pos 24500)
unfolding calculate_atm ◌+ℤ◌ ◌*ℤ◌
atm_found = refl

pub builds : Returns built_result
unfolding calculate_atm
builds =
    build_features_total config snapshot (bar ∷ bar ∷ []) rising_history none none
      (pos 24500, atm_found) (none, refl)

value_ok : (r : Raises (MarketFeatures Num)) → Returns r → r ≡ ok (value r)
unfolding value
value_ok r (f, e) = rw e refl

pub built_ok : built_result ≡ ok built
built_ok = value_ok built_result builds

built_healthy : built.data_health.status ≡ healthy
unfolding value build_features calculate_atm select_strikes near ratio compute_pcr compute_oi ◌+ℤ◌
    ◌*ℤ◌ ◌-ℤ◌ contain overlay setdefault lookup insert snapshot_health absorb absorb_tick
    absorb_chain tick_issues chain_issues is_stale data_age_seconds severity health_code
    aggregate_health health_text vwap_features compute_vwap typical_price
built_healthy = refl

pub built_now : built.timestamp ≡ ten_o_clock
unfolding value build_features calculate_atm select_strikes near ratio compute_pcr compute_oi ◌+ℤ◌
    ◌*ℤ◌ ◌-ℤ◌ contain overlay setdefault lookup insert snapshot_health absorb absorb_tick
    absorb_chain tick_issues chain_issues is_stale data_age_seconds severity health_code
    aggregate_health health_text vwap_features compute_vwap typical_price
built_now = refl

pub ticks : Returns (evaluate_and_apply fresh built config ten_o_clock)
ticks =
    evaluate_and_apply-build_features config snapshot (bar ∷ bar ∷ []) rising_history none none
      built fresh ten_o_clock built_ok (omega arith)

call_points : (score_sides built config).ce_score ≡ pos 85
unfolding value build_features calculate_atm select_strikes near ratio compute_pcr compute_oi ◌+ℤ◌
    ◌*ℤ◌ ◌-ℤ◌ contain overlay setdefault lookup insert snapshot_health absorb absorb_tick
    absorb_chain tick_issues chain_issues is_stale data_age_seconds severity health_code
    aggregate_health health_text vwap_features compute_vwap typical_price price_features
    pcr_trend_from_history pcr_change score_sides score_rules evaluate_ce_rules evaluate_pe_rules
call_points = refl

put_points : (score_sides built config).pe_score ≡ pos 10
unfolding value build_features calculate_atm select_strikes near ratio compute_pcr compute_oi ◌+ℤ◌
    ◌*ℤ◌ ◌-ℤ◌ contain overlay setdefault lookup insert snapshot_health absorb absorb_tick
    absorb_chain tick_issues chain_issues is_stale data_age_seconds severity health_code
    aggregate_health health_text vwap_features compute_vwap typical_price price_features
    pcr_trend_from_history pcr_change score_sides score_rules evaluate_ce_rules evaluate_pe_rules
put_points = refl

confirmed : Confirmed built config fresh ten_o_clock ce
unfolding time_of
confirmed = record {
  enabled = refl;
  healthy = built_healthy;
  in_window = record { started = omega arith; not_over = omega arith; not_at_end = λ e. cc };
  cooled = tt;
  alone = (rw call_points (omega arith), rw put_points (omega arith));
  free = tt;
}

abbrev pub ticked : SignalDecision Num × SignalMemory Num
ticked = ticks.0

pub ticked_ok : evaluate_and_apply fresh built config ten_o_clock ≡ ok ticked
ticked_ok = ticks.1

ticked_setup : is_setup ticked.0.decision ≡ true
ticked_setup =
    let (raw, evaluated, applied, same) = tick_parts config fresh built ten_o_clock ticked_ok in
    let (d, evaluated', emitted) =
      (evaluate-setup_iff built config fresh ten_o_clock ce).1 confirmed in
    let agree = ok_injective (sym evaluated ∙ evaluated') in ground arith

evaluate_and_apply-IsFaultless_example : IsFaultless config snapshot built
evaluate_and_apply-IsFaultless_example =
    evaluate_and_apply-IsFaultless config snapshot (bar ∷ bar ∷ []) rising_history none none built
      fresh ticked.1 ten_o_clock ticked.0 built_ok ticked_ok ticked_setup
