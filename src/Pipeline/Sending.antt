-- ===== src/Pipeline/Sending.antt =====
-- backend/pipeline.py: when an iteration lets the execution service send an order.
use theta_plus.Base.{
  ◌≡◌, ◌⊎◌, inl, inr, if_cases, if_ind, Bool-cases, refl, ap, ◌∙◌, true, false, not, ◌&&◌, Option,
  none, some, String, take,
}
use theta_plus.Base.Int.{pos}
use theta_plus.Base.Float.{Float, Format}
use theta_plus.Base.Raises.{Raises, ok, raised}
use theta_plus.Clock.{Timestamp}
use theta_plus.Config.{AppConfig, Mode, live, paper, research}
use theta_plus.Base.Dict.{Dict}
use theta_plus.Market.{HealthCode, MarketSnapshot, MarketFeatures}
use theta_plus.Engine.Models.{SignalDecision, is_setup}
use theta_plus.Engine.Memory.{SignalMemory}
use theta_plus.Engine.Signal.{evaluate_and_apply}
use theta_plus.Features.Health.{data_age_seconds}
use theta_plus.Features.Build.{build_features}
use theta_plus.Features.Faultless.{IsFaultless, evaluate_and_apply-IsFaultless}
use theta_plus.Execution.Gate.{is_live}
use theta_plus.Execution.Service.State.{State, Setting}
use theta_plus.Execution.Service.Entry.{gate_request}
use theta_plus.Execution.Service.Attempt.{attempt_entry-refused}
use theta_plus.Pipeline.Tick.{
  Pipeline, FeedAnswer, count_bars, stale_with, refresh_features, refresh_data_health, act_on,
  after_decision, settle_on, decide_on, tick,
}

is_live-live : (mode : Mode) → is_live mode ≡ true → mode ≡ live
is_live-live live h = refl
is_live-live paper h = absurd cc
is_live-live research h = absurd cc

module _ {F W : Type 0} ⦃fl : Float F⦄ ⦃fm : Format F⦄ (set : Setting F W)
    (config : AppConfig F) where
  stale_with-execution :
      (now : Timestamp) (f : MarketFeatures F) (p : Pipeline F W) (checks : Dict String)
      (known : Raises HealthCode)
      → (stale_with set config now f p checks known).1.execution ≡ p.execution
  unfolding stale_with
  stale_with-execution now f p checks (raised x) = refl
  stale_with-execution now f p checks (ok status) = refl

  refreshed-execution :
      (now : Timestamp) (p : Pipeline F W) (fs : Option (MarketFeatures F))
      → (refresh_features set config now p fs).1.execution ≡ p.execution
  refreshed-execution now p none = refl
  refreshed-execution now p (some f) =
      if_ind {A = Raises (Unit {0}) × Pipeline F W} (λ r. r.1.execution ≡ p.execution)
        (not p.feed_failed
          && fl.le (data_age_seconds f.timestamp now) (fl.of_int (pos config.max_data_age_seconds)))
        refl (stale_with-execution now f p _ _)

  -- The freshness gate leaves the execution service alone.
  refresh_data_health-execution :
      (now : Timestamp) (p : Pipeline F W)
      → (refresh_data_health set config now p).1.execution ≡ p.execution
  unfolding refresh_data_health
  refresh_data_health-execution now p = refreshed-execution now p p.features

  -- What the data of an iteration are where it may send.
  pub record MaySend (answer : FeedAnswer F) (now : Timestamp) (p : Pipeline F W) : Type 0 where
    pub mode : config.system_mode ≡ live
    pub built : MarketFeatures F
    pub build :
        build_features config answer.snapshot
          (take (count_bars now) answer.bars)
          p.pcr_hist
          p.prev_snapshot
          answer.vwap_bars
        ≡ ok built
    pub faultless : IsFaultless config answer.snapshot built

  -- Whatever reached the broker has its ground in the data of the iteration.
  abbrev pub IsAccounted : Option (FeedAnswer F) → Timestamp → Pipeline F W → Pipeline F W → Type 0
  IsAccounted none now p q = q.execution ≡ p.execution
  IsAccounted (some answer) now p q = (q.execution.sent ≡ p.execution.sent) ⊎ MaySend answer now p

  -- The entry attempt changes what was sent only in live mode and for a setup.
  act_on-sent :
      (d : SignalDecision F) (f : MarketFeatures F) (snapshot : MarketSnapshot F)
      (signal_id uuid : String) (now : Timestamp) (p : Pipeline F W)
      → ((act_on set config d f snapshot signal_id uuid now p).execution.sent ≡ p.execution.sent)
        ⊎ ((config.system_mode ≡ live) × (is_setup d.decision ≡ true))
  unfolding act_on gate_request
  act_on-sent d f snapshot signal_id uuid now p =
      if_cases {A = State F W}
        (λ s.
          (s.sent ≡ p.execution.sent)
          ⊎ ((config.system_mode ≡ live) × (is_setup d.decision ≡ true)))
        (is_live config.system_mode)
        (λ l. elim (Bool-cases (is_setup d.decision)) [
          | inl h ↦ inr (is_live-live config.system_mode l, h)
          | inr h ↦
              inl
                (attempt_entry-refused set (some d) (some f) signal_id now none p.execution
                  (λ permitted. let k = permitted.entry.setup in absurd cc)).0
        ])
        (λ _. inl refl)

  settle_on-sent :
      (answer : FeedAnswer F) (signal_id uuid : String) (now : Timestamp) (p : Pipeline F W)
      (f : MarketFeatures F) (r : Raises (SignalDecision F × SignalMemory F))
      → build_features config answer.snapshot
          (take (count_bars now) answer.bars)
          p.pcr_hist
          p.prev_snapshot
          answer.vwap_bars
        ≡ ok f
      → evaluate_and_apply p.memory f config now ≡ r
      → ((settle_on set config answer signal_id uuid now p f r).1.execution.sent ≡ p.execution.sent)
        ⊎ MaySend answer now p
  unfolding settle_on
  settle_on-sent answer signal_id uuid now p f (raised x) b e = inl refl
  settle_on-sent answer signal_id uuid now p f (ok (d, m)) b e =
      let after = after_decision set config answer f d m p in
      let acted = act_on set config d f answer.snapshot signal_id uuid now after in
      let same = refresh_data_health-execution now acted in
      elim (act_on-sent d f answer.snapshot signal_id uuid now after) [
        | inl s ↦ inl (ap (λ x. x.sent) same ∙ s)
        | inr its ↦ inr (record {
          mode = its.0;
          built = f;
          build = b;
          faultless =
              evaluate_and_apply-IsFaultless config answer.snapshot
                (take (count_bars now) answer.bars) p.pcr_hist p.prev_snapshot answer.vwap_bars f
                p.memory m now d b e its.1;
        })
      ]

  decide_on-sent :
      (answer : FeedAnswer F) (signal_id uuid : String) (now : Timestamp) (p : Pipeline F W)
      (built : Raises (MarketFeatures F))
      → build_features config answer.snapshot
          (take (count_bars now) answer.bars)
          p.pcr_hist
          p.prev_snapshot
          answer.vwap_bars
        ≡ built
      → ((decide_on set config answer signal_id uuid now p built).1.execution.sent
          ≡ p.execution.sent)
        ⊎ MaySend answer now p
  unfolding decide_on
  decide_on-sent answer signal_id uuid now p (raised x) b = inl refl
  decide_on-sent answer signal_id uuid now p (ok f) b =
      settle_on-sent answer signal_id uuid now p f _ b refl

  -- An iteration that the feed answers, whether it raises or not, changes what was sent to the broker
  -- only in LIVE mode, and only where the features were built from data that passed every check: at
  -- the time of the snapshot, its tick and its chain were not found older than the configured age, no
  -- check of the candle or of a row's quotes failed, the chain has every strike of the window, and
  -- PCR, VWAP and OI are valid. An iteration without an answer leaves the execution service as it
  -- was.
  pub tick-IsAccounted :
      (answer : Option (FeedAnswer F)) (signal_id uuid : String) (now : Timestamp)
      (p : Pipeline F W)
      → IsAccounted answer now p (tick set config answer signal_id uuid now p).1
  unfolding tick
  tick-IsAccounted none signal_id uuid now p = refresh_data_health-execution now _
  tick-IsAccounted (some answer) signal_id uuid now p =
      decide_on-sent answer signal_id uuid now p _ refl

  refresh_data_health-fresh :
      (now : Timestamp) (p : Pipeline F W) (f : MarketFeatures F)
      → p.features ≡ some f
      → p.feed_failed ≡ false
      → fl.le (data_age_seconds f.timestamp now) (fl.of_int (pos config.max_data_age_seconds))
        ≡ true
      → refresh_data_health set config now p ≡ (ok tt, p)
  unfolding refresh_data_health
  refresh_data_health-fresh now p f known answered fresh = rw known (rw answered (rw fresh refl))

  decide_on-after :
      (answer : FeedAnswer F) (signal_id uuid : String) (now : Timestamp) (p : Pipeline F W)
      (f : MarketFeatures F) (d : SignalDecision F) (m : SignalMemory F)
      → evaluate_and_apply p.memory f config now ≡ ok (d, m)
      → fl.le (data_age_seconds f.timestamp now) (fl.of_int (pos config.max_data_age_seconds))
        ≡ true
      → decide_on set config answer signal_id uuid now p (ok f) ≡ (
        ok tt,
        act_on set config d f answer.snapshot signal_id uuid now
            (after_decision set config answer f d m p),
      )
  unfolding decide_on settle_on act_on
  decide_on-after answer signal_id uuid now p f d m e fresh =
      ap (settle_on set config answer signal_id uuid now p f) e
      ∙ refresh_data_health-fresh now _ f refl refl fresh

  -- An iteration ends where its parts lead when what it decided on is fresh.
  pub tick-after :
      (answer : FeedAnswer F) (signal_id uuid : String) (now : Timestamp) (p : Pipeline F W)
      (f : MarketFeatures F) (d : SignalDecision F) (m : SignalMemory F)
      → build_features config answer.snapshot
          (take (count_bars now) answer.bars)
          p.pcr_hist
          p.prev_snapshot
          answer.vwap_bars
        ≡ ok f
      → evaluate_and_apply p.memory f config now ≡ ok (d, m)
      → fl.le (data_age_seconds f.timestamp now) (fl.of_int (pos config.max_data_age_seconds))
        ≡ true
      → tick set config (some answer) signal_id uuid now p ≡ (
        ok tt,
        act_on set config d f answer.snapshot signal_id uuid now
            (after_decision set config answer f d m p),
      )
  unfolding tick
  tick-after answer signal_id uuid now p f d m b e fresh =
      ap (decide_on set config answer signal_id uuid now p) b
      ∙ decide_on-after answer signal_id uuid now p f d m e fresh
