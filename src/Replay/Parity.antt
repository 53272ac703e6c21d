-- ===== src/Replay/Parity.antt =====
-- backend/replay/replay_engine.py: within a day, the decisions of a replay are those of a run of the
-- live signal engine on some features.
use mathlib.Core.Path.{subst, ap₂}
use theta_plus.Base.{
  ℕ, ◌≡◌, refl, sym, ap, ◌∙◌, Option, none, some, String, List, [], ◌∷◌, map, arith, All, if_cases,
}
use theta_plus.Base.Float.{Float, Format}
use theta_plus.Base.Raises.{Raises, ok, ok_injective, >>=-eq-ok}
use theta_plus.Clock.{Timestamp, date_of}
use theta_plus.Config.{AppConfig}
use theta_plus.Market.{MarketSnapshot, MarketFeatures}
use theta_plus.Engine.Models.{Decision, SignalState, SignalDecision}
use theta_plus.Engine.Memory.{SignalMemory, fresh}
use theta_plus.Engine.Signal.{evaluate_and_apply}
use theta_plus.Engine.Session.Spacing.{Entry, Run, done, tick}
use theta_plus.Features.Build.{build_features}
use theta_plus.Replay.Models.{ReplaySignal}
use theta_plus.Replay.Session.{
  Session, cons_signal, blank, enter, skips, in_session, evaluate_snapshot, replay_step,
  replay_from, replay_ordered,
}
use theta_plus.Replay.Days.{replay_step-date}

-- When, what was decided, and in which state.
abbrev pub Verdict : Type 0
Verdict = Timestamp × (Decision × SignalState)

abbrev pub verdict_of_entry : {F : Type 0} → Entry F → Verdict
verdict_of_entry e = (e.now, (e.decision.decision, e.decision.state))

abbrev pub verdict_of_signal : {F : Type 0} → ReplaySignal F → Verdict
verdict_of_signal s = (s.timestamp, (s.decision, s.state))

module _ {F : Type 0} ⦃fl : Float F⦄ ⦃fm : Format F⦄ (uuid5 : String → String)
    (config : AppConfig F) where
  -- A run of the engine that decided what the signals say.
  abbrev pub Ran : SignalMemory F → List (ReplaySignal F) → SignalMemory F → Type 0
  Ran m signals m' =
      (es : List (Entry F)) × Run config m es m'
      × (map verdict_of_entry es ≡ map verdict_of_signal signals)

  evaluate_snapshot-tick :
      (x : MarketSnapshot F) (s : Session F) (r : Option (ReplaySignal F) × Session F)
      → evaluate_snapshot uuid5 config x s ≡ ok r
      → (f : MarketFeatures F) × (d : SignalDecision F) × (sig : ReplaySignal F)
        × (evaluate_and_apply s.memory f config x.timestamp ≡ ok (d, r.1.memory))
        × (r.0 ≡ some sig)
        × (verdict_of_signal sig ≡ (x.timestamp, (d.decision, d.state)))
  unfolding evaluate_snapshot
  evaluate_snapshot-tick x s r e =
      let (f, built, rest) =
        >>=-eq-ok (build_features config x _ s.pcr_hist s.prev_snapshot none) _ e in
      let ((d, m), decided, ends) =
        >>=-eq-ok (evaluate_and_apply s.memory f config x.timestamp) _ rest in
      let same = ok_injective ends in
      (
        f,
        d,
        _,
        decided ∙ ap (λ (p : Option (ReplaySignal F) × Session F). ok (d, p.1.memory)) same,
        sym (ap (λ (p : Option (ReplaySignal F) × Session F). p.0) same),
        refl,
      )

  cons-Ran :
      (x : MarketSnapshot F) (s : Session F) (one : Option (ReplaySignal F) × Session F)
      (signals : List (ReplaySignal F)) (m : SignalMemory F)
      → in_session uuid5 config x s ≡ ok one
      → Ran one.1.memory signals m
      → Ran s.memory (cons_signal one.0 signals) m
  cons-Ran x s one signals m e (es, run, same) =
      if_cases {A = Raises (Option (ReplaySignal F) × Session F)}
        (λ r. (r ≡ ok one) → Ran s.memory (cons_signal one.0 signals) m)
        (skips uuid5 config x.timestamp)
        (λ _ skipped.
          subst
            (λ (o : Option (ReplaySignal F) × Session F).
              Ran o.1.memory signals m → Ran s.memory (cons_signal o.0 signals) m)
            (ok_injective skipped) (λ ran. ran) (es, run, same))
        (λ _ evaluated.
          let (f, d, sig, ticked, its, says) = evaluate_snapshot-tick x s one evaluated in
          subst (λ o. Ran s.memory (cons_signal o signals) m) (sym its)
            (
              record { now = x.timestamp; decision = d } ∷ es,
              tick f x.timestamp ticked run,
              ap₂ ◌∷◌ (sym says) same,
            ))
        e

  enter-stays : (d : ℕ) (s : Session F) → s.date ≡ some d → (enter uuid5 d s).memory ≡ s.memory
  unfolding enter
  enter-stays d s h = ground arith

  replay_from-Ran :
      (d : ℕ) (s : Session F) (xs : List (MarketSnapshot F)) (r : List (ReplaySignal F) × Session F)
      → (enter uuid5 d s).memory ≡ s.memory
      → All (λ x. date_of x.timestamp ≡ d) xs
      → replay_from uuid5 config s xs ≡ ok r
      → Ran s.memory r.0 r.1.memory
  unfolding replay_from replay_step
  replay_from-Ran d s [] r here all e =
      subst (λ (o : List (ReplaySignal F) × Session F). Ran s.memory o.0 o.1.memory)
        (ok_injective e) ([], done, refl)
  replay_from-Ran d s (x ∷ xs) r here all e =
      let (one, stepped, rest) = >>=-eq-ok (replay_step uuid5 config x s) _ e in
      let (more, went_on, ends) = >>=-eq-ok (replay_from uuid5 config one.1 xs) _ rest in
      let there = replay_step-date uuid5 config x s one stepped ∙ ap some all.0 in
      let later = replay_from-Ran d one.1 xs more (enter-stays d one.1 there) all.1 went_on in
      let whole =
        cons-Ran x (enter uuid5 (date_of x.timestamp) s) one more.0 more.1.memory stepped later in
      subst (λ (o : List (ReplaySignal F) × Session F). Ran s.memory o.0 o.1.memory)
        (ok_injective ends)
        (subst (λ m. Ran m (cons_signal one.0 more.0) more.1.memory)
          (ap (λ c. (enter uuid5 c s).memory) all.0 ∙ here) whole)

  -- The signals of a replay of snapshots of one day are the decisions, with their times and states,
  -- of a run of the live signal engine, on some features, from a fresh memory.
  pub replay_ordered-Ran :
      (d : ℕ) (xs : List (MarketSnapshot F)) (signals : List (ReplaySignal F))
      → All (λ x. date_of x.timestamp ≡ d) xs
      → replay_ordered uuid5 config xs ≡ ok signals
      → (m : SignalMemory F) × Ran fresh signals m
  unfolding replay_ordered enter
  replay_ordered-Ran d xs signals all e =
      let (r, ran, ends) = >>=-eq-ok (replay_from uuid5 config (blank uuid5) xs) _ e in
      (
        r.1.memory,
        subst (λ o. Ran fresh o r.1.memory) (ok_injective ends)
            (replay_from-Ran d (blank uuid5) xs r refl all ran),
      )
