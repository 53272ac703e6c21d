-- ===== src/Replay/Accounting.antt =====
-- backend/replay: the metrics of a replay account for every setup.
use mathlib.Core.Path.{subst}
use theta_plus.Base.{
  ◌+◌, ◌≡◌, refl, sym, ap, Bool, true, Option, none, some, String, List, [], ◌∷◌, length, select,
  map, arith, is_some, All, if_cases, ◌∙◌,
}
use theta_plus.Base.Float.{Float, Format}
use theta_plus.Base.Raises.{Raises, ok, ok_injective, >>=-eq-ok}
use theta_plus.Clock.{date_of}
use theta_plus.Config.{AppConfig}
use theta_plus.Market.{MarketSnapshot}
use theta_plus.Engine.Models.{ce_setup, pe_setup, waiting, is_setup, is_invalidation}
use theta_plus.Engine.Signal.{evaluate_and_apply}
use theta_plus.Features.Build.{build_features}
use theta_plus.Replay.Build.{build_outcomes}
use theta_plus.Replay.Feed.{replay_feed}
use theta_plus.Replay.Run.{ReplayResult, run_replay}
use theta_plus.Replay.Session.{
  Session, cons_signal, blank, enter, skips, in_session, evaluate_snapshot, replay_step,
  replay_from, replay_ordered, replay_signals,
}
use theta_plus.Replay.Models.{
  ReplaySignal, SignalOutcome, OutcomeState, target, stoploss, invalidated, expired, ambiguous,
  no_data,
}
use theta_plus.Replay.Metrics.{is_wait, is_ce, is_pe, compute_metrics, ReplayMetrics}
use theta_plus.Replay.Setups.{is_tradable, build_outcomes-signals}
use theta_plus.Replay.Counts.{
  Count, Count-select, is_ce-eq, is_pe-eq, is_wait-eq, all_exits, sides, decisions, all_tradable,
  exits-Count, only_ce, only_pe, length-map,
}

module _ {F : Type 0} ⦃fl : Float F⦄ ⦃fm : Format F⦄ (uuid5 : String → String)
    (config : AppConfig F) where
  -- A replayed signal names its strike.
  evaluate_snapshot-strike :
      (x : MarketSnapshot F) (s : Session F) (r : Option (ReplaySignal F) × Session F)
      → evaluate_snapshot uuid5 config x s ≡ ok r
      → (sig : ReplaySignal F) × (r.0 ≡ some sig) × (is_some sig.atm ≡ true)
  unfolding evaluate_snapshot
  evaluate_snapshot-strike x s r e =
      let (f, built, rest) =
        >>=-eq-ok (build_features config x _ s.pcr_hist s.prev_snapshot none) _ e in
      let (d, decided, ends) =
        >>=-eq-ok (evaluate_and_apply s.memory f config x.timestamp) _ rest in
      (_, sym (ap (λ (p : Option (ReplaySignal F) × Session F). p.0) (ok_injective ends)), refl)

  abbrev HaveStrikes : List (ReplaySignal F) → Type 0
  HaveStrikes signals = All (λ s. is_some s.atm ≡ true) signals

  cons-HaveStrikes :
      (x : MarketSnapshot F) (s : Session F) (one : Option (ReplaySignal F) × Session F)
      (signals : List (ReplaySignal F))
      → in_session uuid5 config x s ≡ ok one
      → HaveStrikes signals
      → HaveStrikes (cons_signal one.0 signals)
  cons-HaveStrikes x s one signals e h =
      if_cases {A = Raises (Option (ReplaySignal F) × Session F)}
        (λ r. (r ≡ ok one) → HaveStrikes (cons_signal one.0 signals))
        (skips uuid5 config x.timestamp)
        (λ _ skipped.
          subst (λ (o : Option (ReplaySignal F) × Session F). HaveStrikes (cons_signal o.0 signals))
            (ok_injective skipped) h)
        (λ _ evaluated.
          let (sig, its, strike) = evaluate_snapshot-strike x s one evaluated in
          subst (λ o. HaveStrikes (cons_signal o signals)) (sym its) (strike, h))
        e

  replay_from-HaveStrikes :
      (s : Session F) (xs : List (MarketSnapshot F)) (r : List (ReplaySignal F) × Session F)
      → replay_from uuid5 config s xs ≡ ok r
      → HaveStrikes r.0
  unfolding replay_from replay_step
  replay_from-HaveStrikes s [] r e =
      subst (λ (o : List (ReplaySignal F) × Session F). HaveStrikes o.0) (ok_injective e) tt
  replay_from-HaveStrikes s (x ∷ xs) r e =
      let (one, stepped, rest) = >>=-eq-ok (replay_step uuid5 config x s) _ e in
      let (more, went_on, ends) = >>=-eq-ok (replay_from uuid5 config one.1 xs) _ rest in
      subst (λ (o : List (ReplaySignal F) × Session F). HaveStrikes o.0) (ok_injective ends)
        (cons-HaveStrikes x (enter uuid5 (date_of x.timestamp) s) one more.0 stepped
          (replay_from-HaveStrikes one.1 xs more went_on))

  replay_ordered-HaveStrikes :
      (xs : List (MarketSnapshot F)) (signals : List (ReplaySignal F))
      → replay_ordered uuid5 config xs ≡ ok signals
      → HaveStrikes signals
  unfolding replay_ordered
  replay_ordered-HaveStrikes xs signals e =
      let (r, ran, ends) = >>=-eq-ok (replay_from uuid5 config (blank uuid5) xs) _ e in
      subst HaveStrikes (ok_injective ends) (replay_from-HaveStrikes (blank uuid5) xs r ran)

module _ {F : Type 0} ⦃fl : Float F⦄ where
  -- The metrics count the signals by their decisions and the outcomes by their states, there is one
  -- outcome for each setup, and the counts add up.
  pub record Accounts (signals : List (ReplaySignal F)) (outcomes : List (SignalOutcome F))
      (m : ReplayMetrics F) : Type 0 where
    pub total : m.total_evaluations ≡ length signals
    pub setups : Count (λ s. is_setup s.decision ≡ true) signals m.total_signals
    pub ce : Count (λ s. s.decision ≡ ce_setup) signals m.ce_signals
    pub pe : Count (λ s. s.decision ≡ pe_setup) signals m.pe_signals
    pub waits : Count (λ s. s.decision ≡ waiting) signals m.wait_decisions
    pub endings : Count (λ s. is_invalidation s.decision ≡ true) signals m.invalidation_decisions
    pub paired :
        map (λ o. o.signal_id) outcomes
        ≡ map (λ s. s.signal_id) (select (λ s. is_setup s.decision) signals)
    pub target : Count (λ o. o.exit_state ≡ target) outcomes m.target
    pub stoploss : Count (λ o. o.exit_state ≡ stoploss) outcomes m.stoploss
    pub invalidated : Count (λ o. o.exit_state ≡ invalidated) outcomes m.invalidated
    pub expired : Count (λ o. o.exit_state ≡ expired) outcomes m.expired
    pub ambiguous : Count (λ o. o.exit_state ≡ ambiguous) outcomes m.ambiguous
    pub no_data : Count (λ o. o.exit_state ≡ no_data) outcomes m.no_data
    pub evaluations :
        m.total_evaluations ≡ m.total_signals + m.wait_decisions + m.invalidation_decisions
    pub sides : m.total_signals ≡ m.ce_signals + m.pe_signals
    pub each_ends :
        m.total_signals
        ≡ m.target + m.stoploss + m.invalidated + m.expired + m.ambiguous + m.no_data

  compute_metrics-Accounts :
      (mean median : List F → F) (config : AppConfig F) (signals : List (ReplaySignal F))
      (snapshots : List (MarketSnapshot F)) (data_origin : String)
      → All (λ s. is_some s.atm ≡ true) signals
      → Accounts signals (build_outcomes config signals snapshots) (
          compute_metrics mean median signals
            (build_outcomes config signals snapshots)
            config
            data_origin)
  unfolding compute_metrics
  compute_metrics-Accounts mean median config signals snapshots data_origin strikes =
      let outcomes = build_outcomes config signals snapshots in
      let one_each = build_outcomes-signals config signals snapshots in
      let ids = ap length one_each in
      let outs = length-map (λ (o : SignalOutcome F). o.signal_id) outcomes in
      let ins = length-map (λ (s : ReplaySignal F). s.signal_id) (select is_tradable signals) in
      let tradable = all_tradable signals strikes in
      let same = ap length tradable in
      record {
        total = refl;
        setups = Count-select (λ s. is_setup s.decision) _ (λ s e. e) (λ s e. e) signals;
        ce = rw (only_ce signals) (
            Count-select (λ s. is_ce s.decision) _ (λ s e. is_ce-eq s.decision e) (λ s e. rw e refl)
              signals);
        pe = rw (only_pe signals) (
            Count-select (λ s. is_pe s.decision) _ (λ s e. is_pe-eq s.decision e) (λ s e. rw e refl)
              signals);
        waits =
            Count-select (λ s. is_wait s.decision) _ (λ s e. is_wait-eq s.decision e)
              (λ s e. rw e refl) signals;
        endings = Count-select (λ s. is_invalidation s.decision) _ (λ s e. e) (λ s e. e) signals;
        paired = one_each ∙ ap (map (λ (s : ReplaySignal F). s.signal_id)) tradable;
        target = exits-Count OutcomeState.target outcomes;
        stoploss = exits-Count OutcomeState.stoploss outcomes;
        invalidated = exits-Count OutcomeState.invalidated outcomes;
        expired = exits-Count OutcomeState.expired outcomes;
        ambiguous = exits-Count OutcomeState.ambiguous outcomes;
        no_data = exits-Count OutcomeState.no_data outcomes;
        evaluations = decisions signals;
        sides = sides signals;
        each_ends = omega (arith, all_exits outcomes, ids, outs, ins, same);
      }

module _ {F : Type 0} ⦃fl : Float F⦄ ⦃fm : Format F⦄ (uuid5 sha256 : String → String)
    (mean median : List F → F) (config : AppConfig F) where
  abbrev AccountsFor : ReplayResult F → Type 0
  AccountsFor r = Accounts r.signals r.outcomes r.metrics

  -- In the result of a replay that returns, the metrics count the signals by their decisions, as
  -- setups of each side, waits and invalidations, and the outcomes by their states; the outcomes are
  -- one for each setup, in the order of the signals. So every evaluation is counted once, every setup
  -- once by its side, and once by the outcome that it has.
  pub run_replay-Accounts :
      (snapshots : List (MarketSnapshot F)) (data_origin : String) (strict : Bool)
      (result : ReplayResult F)
      → run_replay uuid5 sha256 mean median config snapshots data_origin strict ≡ ok result
      → Accounts result.signals result.outcomes result.metrics
  unfolding run_replay replay_signals
  run_replay-Accounts snapshots data_origin strict result e =
      let (replayed, ran, ends) =
        >>=-eq-ok (replay_signals uuid5 config sha256 snapshots strict) _ e in
      let (feed, fed, later) = >>=-eq-ok (replay_feed strict snapshots) _ ran in
      let (signals, made, total) = >>=-eq-ok (replay_ordered uuid5 config feed) _ later in
      let strikes = replay_ordered-HaveStrikes uuid5 config feed signals made in
      subst AccountsFor (ok_injective ends) (
        compute_metrics-Accounts mean median config replayed.0 _ data_origin (
          subst
            (λ (r : List (ReplaySignal F) × String × String). All (λ s. is_some s.atm ≡ true) r.0)
            (ok_injective total) strikes))
