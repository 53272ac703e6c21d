-- ===== src/Pipeline/Current.antt =====
-- backend/pipeline.py: the setups that the pipeline shows after an iteration.
use mathlib.Core.Option
use mathlib.Core.Path.{subst}
use theta_plus.Base.{
  ◌≡◌, refl, sym, ap, ◌∙◌, true, false, not, ◌&&◌, Option, none, some, String, arith, if_cases,
  &&-true,
}
use theta_plus.Base.Int.{pos}
use theta_plus.Base.Float.{Float, Format}
use theta_plus.Base.Raises.{Raises, ok, raised}
use theta_plus.Clock.{Timestamp}
use theta_plus.Config.{AppConfig}
use theta_plus.Base.Dict.{Dict}
use theta_plus.Market.{HealthCode, MarketFeatures}
use theta_plus.Engine.Models.{SignalDecision, is_setup}
use theta_plus.Engine.Memory.{SignalMemory}
use theta_plus.Features.Health.{data_age_seconds}
use theta_plus.Execution.Service.State.{Setting}
use theta_plus.Pipeline.Tick.{
  Pipeline, FeedAnswer, stale_decision, stale_with, refresh_features, refresh_data_health, act_on,
  settle_on, decide_on, tick,
}

module _ {F W : Type 0} ⦃fl : Float F⦄ ⦃fm : Format F⦄ (set : Setting F W)
    (config : AppConfig F) where
  -- The decision is a setup.
  abbrev pub ShowsSetup : Option (SignalDecision F) → Type 0
  ShowsSetup none = ⊥
  ShowsSetup (some d) = is_setup d.decision ≡ true

  abbrev pub IsCurrentWith : Timestamp → Pipeline F W → Option (MarketFeatures F) → Type 0
  IsCurrentWith now p none = p.decision ≡ none
  IsCurrentWith now p (some f) =
      ShowsSetup p.decision
      → (p.feed_failed ≡ false)
        × (fl.le (data_age_seconds f.timestamp now) (fl.of_int (pos config.max_data_age_seconds))
            ≡ true)

  -- A setup is shown only while the feed answers and the features are not too old.
  abbrev pub IsCurrent : Timestamp → Pipeline F W → Type 0
  IsCurrent now p = IsCurrentWith now p p.features

  stale_decision-waits :
      (o : Option (SignalDecision F)) (g : SignalDecision F → SignalDecision F)
      → ((d : SignalDecision F) → (g d).decision ≡ (stale_decision set config d).decision)
      → ¬ ShowsSetup (Option.map g o)
  stale_decision-waits none g e h = h
  stale_decision-waits (some d) g e h = let stale = sym h ∙ ap is_setup (e d) in absurd cc

  stale_with-waits :
      (now : Timestamp) (f : MarketFeatures F) (p : Pipeline F W) (checks : Dict String)
      (known : Raises HealthCode)
      → (stale_with set config now f p checks known).0 ≡ ok tt
      → ¬ ShowsSetup (stale_with set config now f p checks known).1.decision
  unfolding stale_with
  stale_with-waits now f p checks (raised x) e = absurd cc
  stale_with-waits now f p checks (ok status) e =
      stale_decision-waits p.decision
        (λ d. record (stale_decision set config d) { data_health = status }) (λ d. refl)

  stale_with-IsCurrent :
      (now : Timestamp) (f : MarketFeatures F) (p : Pipeline F W) (checks : Dict String)
      (known : Raises HealthCode)
      → (stale_with set config now f p checks known).0 ≡ ok tt
      → IsCurrent now (stale_with set config now f p checks known).1
  unfolding stale_with
  stale_with-IsCurrent now f p checks (raised x) e = absurd cc
  stale_with-IsCurrent now f p checks (ok status) e = λ shown. absurd (
      stale_decision-waits p.decision
        (λ d. record (stale_decision set config d) { data_health = status }) (λ d. refl) shown)

  -- The call leaves the pipeline current, unless it raises.
  abbrev LeavesCurrent : Timestamp → Raises (Unit {0}) × Pipeline F W → Type 0
  LeavesCurrent now r = r.0 ≡ ok tt → IsCurrent now r.1

  refreshed-IsCurrent :
      (now : Timestamp) (p : Pipeline F W) (fs : Option (MarketFeatures F))
      → p.features ≡ fs
      → (fs ≡ none → p.decision ≡ none)
      → LeavesCurrent now (refresh_features set config now p fs)
  refreshed-IsCurrent now p none its paired e = subst (IsCurrentWith now p) (sym its) (paired refl)
  refreshed-IsCurrent now p (some f) its paired e =
      if_cases {A = Raises (Unit {0}) × Pipeline F W} (LeavesCurrent now)
        (not p.feed_failed
          && fl.le (data_age_seconds f.timestamp now) (fl.of_int (pos config.max_data_age_seconds)))
        (λ both _.
          subst (IsCurrentWith now p) (sym its) (λ _.
            let (answers, young) = &&-true (not p.feed_failed) _ both in (ground arith, young)))
        (λ _. stale_with-IsCurrent now f p _ _) e

  refresh_data_health-IsCurrent :
      (now : Timestamp) (p : Pipeline F W)
      → (p.features ≡ none → p.decision ≡ none)
      → LeavesCurrent now (refresh_data_health set config now p)
  unfolding refresh_data_health
  refresh_data_health-IsCurrent now p paired = refreshed-IsCurrent now p p.features refl paired

  settle_on-IsCurrent :
      (answer : FeedAnswer F) (signal_id uuid : String) (now : Timestamp) (p : Pipeline F W)
      (f : MarketFeatures F) (r : Raises (SignalDecision F × SignalMemory F))
      → LeavesCurrent now (settle_on set config answer signal_id uuid now p f r)
  unfolding settle_on act_on
  settle_on-IsCurrent answer signal_id uuid now p f (raised x) e = absurd cc
  settle_on-IsCurrent answer signal_id uuid now p f (ok (d, m)) e =
      refresh_data_health-IsCurrent now _ (λ absent. absurd (grind arith)) e

  decide_on-IsCurrent :
      (answer : FeedAnswer F) (signal_id uuid : String) (now : Timestamp) (p : Pipeline F W)
      (built : Raises (MarketFeatures F))
      → LeavesCurrent now (decide_on set config answer signal_id uuid now p built)
  unfolding decide_on
  decide_on-IsCurrent answer signal_id uuid now p (raised x) e = absurd cc
  decide_on-IsCurrent answer signal_id uuid now p (ok f) e =
      settle_on-IsCurrent answer signal_id uuid now p f _ e

  -- The refresh after a failure of the feed ends every setup that is shown.
  refreshed-waits :
      (now : Timestamp) (p : Pipeline F W) (fs : Option (MarketFeatures F))
      → p.feed_failed ≡ true
      → (fs ≡ none → p.decision ≡ none)
      → (refresh_features set config now p fs).0 ≡ ok tt
      → ¬ ShowsSetup (refresh_features set config now p fs).1.decision
  refreshed-waits now p none failed paired e shown = subst ShowsSetup (paired refl) shown
  refreshed-waits now p (some f) failed paired e shown =
      if_cases {A = Raises (Unit {0}) × Pipeline F W} (λ r. r.0 ≡ ok tt → ¬ ShowsSetup r.1.decision)
        (not p.feed_failed
          && fl.le (data_age_seconds f.timestamp now) (fl.of_int (pos config.max_data_age_seconds)))
        (λ both. let answers = (&&-true (not p.feed_failed) _ both).0 in absurd (ground arith))
        (λ _. stale_with-waits now f p _ _) e shown

  -- Without an answer of the feed, no setup is shown.
  abbrev pub Shows : Option (FeedAnswer F) → Pipeline F W → Type 0
  Shows none q = ¬ ShowsSetup q.decision
  Shows (some answer) q = Unit {0}

  -- A pipeline is current where it has no decision without features, and with features shows a setup
  -- only while the feed answers and the features are no older than the configured age. From a current
  -- pipeline, every iteration that raises nothing, whether the feed answers or not, ends in one that
  -- is current at its time; and where the feed does not answer, it ends in one that shows no setup.
  pub tick-IsCurrent :
      (answer : Option (FeedAnswer F)) (signal_id uuid : String) (before now : Timestamp)
      (p : Pipeline F W)
      → IsCurrent before p
      → (tick set config answer signal_id uuid now p).0 ≡ ok tt
      → IsCurrent now (tick set config answer signal_id uuid now p).1
        × Shows answer (tick set config answer signal_id uuid now p).1
  unfolding tick refresh_data_health
  tick-IsCurrent none signal_id uuid before now p current e =
      let q : Pipeline F W = record p { feed_failed = true } in
      let paired : p.features ≡ none → p.decision ≡ none =
        λ absent. subst (IsCurrentWith before p) absent current in
      (
        refreshed-IsCurrent now q p.features refl paired e,
        refreshed-waits now q p.features refl paired e,
      )
  tick-IsCurrent (some answer) signal_id uuid before now p current e =
      (decide_on-IsCurrent answer signal_id uuid now p _ e, tt)
