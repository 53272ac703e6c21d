-- ===== src/Features/Faultless.antt =====
-- backend/engines/feature_engine.py, with backend/engines/signal_engine.py: the data behind features
-- whose health is OK, and the ticks of the signal engine on built features.
use theta_plus.Base.{
  ◌+◌, ◌*◌, ◌<◌, ◌≡◌, refl, sym, ap, ◌∙◌, true, Option, List, [], ◌∷◌, arith, All, is_some,
}
use theta_plus.Base.Int.{ℤ, pos}
use theta_plus.Base.Float.{Float, Format}
use theta_plus.Base.Raises.{ok, ok_injective, Returns, >>=-eq-ok}
use theta_plus.Clock.{Timestamp, minute, end_of_time}
use theta_plus.Config.{AppConfig}
use theta_plus.Market.{
  healthy, AtmFeatures, PcrFeatures, VwapFeatures, OiFeatures, MarketSnapshot, OptionChainRow,
  MarketFeatures,
}
use theta_plus.Engine.Memory.{SignalMemory}
use theta_plus.Engine.Signal.{evaluate_and_apply}
use theta_plus.Engine.Models.{
  Side, ce, pe, Decision, ce_setup, pe_setup, waiting, ce_invalidated, pe_invalidated, setup,
  is_setup, SignalDecision,
}
use theta_plus.Engine.Signal.Setup.{evaluate-setup_iff}
use theta_plus.Engine.Session.{tick_parts, evaluate_and_apply_total}
use theta_plus.Features.Chain.{calculate_atm}
use theta_plus.Features.Bars.{Bar, vwap_features}
use theta_plus.Features.Health.{snapshot_health, aggregate_health}
use theta_plus.Features.Build.{
  by_strike, missing_strikes, overlay, or_interval, previous_pcr, contain, assemble, build_features,
}
use theta_plus.Features.Severity.{aggregate_health-healthy, lookup-ok}
use theta_plus.Features.Passed.{IsSoundSnapshot, overlay-IsPassed, snapshot_health-IsSoundSnapshot}

setup_side : (x : Decision) → is_setup x ≡ true → (side : Side) × (x ≡ setup side)
setup_side ce_setup h = (ce, refl)
setup_side pe_setup h = (pe, refl)
setup_side waiting h = absurd cc
setup_side ce_invalidated h = absurd cc
setup_side pe_invalidated h = absurd cc

module _ {F : Type 0} ⦃fl : Float F⦄ ⦃fm : Format F⦄ where
  -- The data that features with an OK health were built from.
  pub record IsFaultless (config : AppConfig F) (snapshot : MarketSnapshot F) (f : MarketFeatures F)
      : Type 0 where
    pub source :
        IsSoundSnapshot snapshot snapshot.timestamp (fl.of_int (pos config.max_data_age_seconds))
    pub window : All (λ s. is_some (by_strike s snapshot.chain.rows) ≡ true) f.atm.strikes
    pub pcr : f.pcr.valid ≡ true
    pub vwap : f.vwap.valid ≡ true
    pub oi : f.oi.valid ≡ true

  none_missing-All :
      (strikes : List ℤ) (rows : List (OptionChainRow F))
      → missing_strikes strikes rows ≡ []
      → All (λ s. is_some (by_strike s rows) ≡ true) strikes
  none_missing-All [] rows h = tt
  none_missing-All (s ∷ strikes) rows h = ground (arith, none_missing-All strikes rows)

  module _ (config : AppConfig F) where
    abbrev max_age : F
    max_age = fl.of_int (pos config.max_data_age_seconds)

    -- What the container holds, and the aggregate of its checks.
    contain_parts :
        (snapshot : MarketSnapshot F) (bars : List (Bar F)) (atm : AtmFeatures F) (missing : List ℤ)
        (pcr : PcrFeatures F) (oi : OiFeatures) (vwap : VwapFeatures F) (f : MarketFeatures F)
        → contain config snapshot bars atm missing pcr oi vwap ≡ ok f
        → (aggregate_health
              (overlay (snapshot_health snapshot snapshot.timestamp max_age) pcr vwap oi missing).0
            ≡ ok f.data_health.status)
          × (f.atm ≡ atm)
          × (f.pcr ≡ pcr)
          × (f.oi ≡ oi)
          × (f.vwap ≡ vwap)
    unfolding contain
    contain_parts snapshot bars atm missing pcr oi vwap f e =
        let (status, aggregated, rest) = >>=-eq-ok (aggregate_health _) _ e in
        let same = ok_injective rest in
        (
          aggregated ∙ ap (λ g. ok g.data_health.status) same,
          sym (ap (λ g. g.atm) same),
          sym (ap (λ g. g.pcr) same),
          sym (ap (λ g. g.oi) same),
          sym (ap (λ g. g.vwap) same),
        )

    -- The container that a build ends with.
    build_parts :
        (snapshot : MarketSnapshot F) (bars : List (Bar F)) (history : List (Timestamp × Option F))
        (prev : Option (MarketSnapshot F)) (vwap_bars : Option (List (Bar F)))
        (f : MarketFeatures F)
        → build_features config snapshot bars history prev vwap_bars ≡ ok f
        → (atm : ℤ) × (before : Option F) × (assemble config snapshot bars history prev vwap_bars
              (or_interval snapshot.chain.strike_interval (pos config.strike_interval))
              atm
              before
            ≡ ok f)
    unfolding build_features
    build_parts snapshot bars history prev vwap_bars f e =
        let interval = or_interval snapshot.chain.strike_interval (pos config.strike_interval) in
        let (atm, found, e₁) = >>=-eq-ok (calculate_atm snapshot.tick.close interval) _ e in
        let (before, known, e₂) = >>=-eq-ok (previous_pcr config interval prev) _ e₁ in
        (atm, before, e₂)

    -- Features whose health is OK were built from a snapshot whose tick and chain were not too old at
    -- its own time and failed no check; the chain has every strike of the window; and PCR, VWAP and OI
    -- are valid.
    pub build_features-IsFaultless :
        (snapshot : MarketSnapshot F) (bars : List (Bar F)) (history : List (Timestamp × Option F))
        (prev : Option (MarketSnapshot F)) (vwap_bars : Option (List (Bar F)))
        (f : MarketFeatures F)
        → build_features config snapshot bars history prev vwap_bars ≡ ok f
        → f.data_health.status ≡ healthy
        → IsFaultless config snapshot f
    build_features-IsFaultless snapshot bars history prev vwap_bars f e h =
        let (atm, before, e') = build_parts snapshot bars history prev vwap_bars f e in
        let (aggregated, same_atm, same_pcr, same_oi, same_vwap) =
          contain_parts snapshot bars _ _ _ _ _ f e' in
        let all_OK = aggregate_health-healthy _ (aggregated ∙ ap ok h) in
        let passed = overlay-IsPassed _ _ _ _ _ (λ k c. lookup-ok k _ c all_OK) in
        record {
          source =
              snapshot_health-IsSoundSnapshot snapshot snapshot.timestamp max_age passed.age
                passed.price passed.chain;
          window = rw same_atm (none_missing-All _ snapshot.chain.rows passed.none_missing);
          pcr = rw same_pcr passed.pcr_valid;
          vwap = rw same_vwap passed.vwap_valid;
          oi = rw same_oi passed.oi_valid;
        }

    vwap_features_complete :
        (spot : F) (bars : List (Bar F))
        → (vwap_features spot bars).valid ≡ true
        → is_some (vwap_features spot bars).vwap ≡ true
    unfolding vwap_features
    vwap_features_complete spot bars h = ground arith

    -- A tick of the signal engine on features that were built raises nothing, whatever the snapshot,
    -- the bars, the history and the memory, as long as a cooldown that begins now ends in time.
    pub evaluate_and_apply-build_features :
        (snapshot : MarketSnapshot F) (bars : List (Bar F)) (history : List (Timestamp × Option F))
        (prev : Option (MarketSnapshot F)) (vwap_bars : Option (List (Bar F)))
        (f : MarketFeatures F) (memory : SignalMemory F) (now : Timestamp)
        → build_features config snapshot bars history prev vwap_bars ≡ ok f
        → now + config.signal_cooldown_minutes * minute < end_of_time
        → Returns (evaluate_and_apply memory f config now)
    evaluate_and_apply-build_features snapshot bars history prev vwap_bars f memory now e ends =
        let (atm, before, e') = build_parts snapshot bars history prev vwap_bars f e in
        let (aggregated, same_atm, same_pcr, same_oi, same_vwap) =
          contain_parts snapshot bars _ _ _ _ _ f e' in
        evaluate_and_apply_total config memory f now (rw same_vwap (vwap_features_complete _ _))
          ends

    -- A tick on built features that returns emits a setup only where they were built from data that
    -- passed every check: at the time of the snapshot, its tick and its chain were not found older than
    -- the configured age, no check of the candle or of a row's quotes failed, the chain has every
    -- strike of the window, and PCR, VWAP and OI are valid.
    pub evaluate_and_apply-IsFaultless :
        (snapshot : MarketSnapshot F) (bars : List (Bar F)) (history : List (Timestamp × Option F))
        (prev : Option (MarketSnapshot F)) (vwap_bars : Option (List (Bar F)))
        (f : MarketFeatures F) (m m' : SignalMemory F) (now : Timestamp) (d : SignalDecision F)
        → build_features config snapshot bars history prev vwap_bars ≡ ok f
        → evaluate_and_apply m f config now ≡ ok (d, m')
        → is_setup d.decision ≡ true
        → IsFaultless config snapshot f
    evaluate_and_apply-IsFaultless snapshot bars history prev vwap_bars f m m' now d e t h =
        let (raw, evaluated, applied, same) = tick_parts config m f now t in
        let (side, its) = setup_side raw.decision (rw same at h) in
        build_features-IsFaultless snapshot bars history prev vwap_bars f e
          (((evaluate-setup_iff f config m now side).0 (raw, evaluated, its)).healthy)
