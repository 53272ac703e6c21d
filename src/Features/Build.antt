-- ===== src/Features/Build.antt =====
-- backend/engines/feature_engine.py: the features of one snapshot.
use Prim.Native.String.{◌++◌}
use mathlib.Core.Option
use mathlib.Core.List.{◌++◌ as append_list}
use theta_plus.Base.{
  Bool, not, ◌&&◌, Option, none, some, String, List, [], ◌∷◌, if◌then◌else◌, ◌==◌, is_some, or_else,
  length, select,
}
use theta_plus.Base.Int.{ℤ, pos, eq_ℤ}
use theta_plus.Base.Float.{Float, Format}
use theta_plus.Base.Dict.{Dict, lookup, insert}
use theta_plus.Base.Raises.{Raises, ok, ◌>>=◌}
use theta_plus.Clock.{Timestamp}
use theta_plus.Config.{AppConfig}
use theta_plus.Market.{
  OptionChainRow, MarketSnapshot, AtmFeatures, PcrFeatures, OiFeatures, VwapFeatures, DataHealth,
  MarketFeatures,
}
use theta_plus.Features.Chain.{
  calculate_atm, select_strikes, compute_pcr, pcr_change, pcr_trend_from_history,
}
use theta_plus.Features.Oi.{compute_oi}
use theta_plus.Features.Bars.{Bar, last_bar, vwap_features, price_features}
use theta_plus.Features.Health.{data_age_seconds, list_text, snapshot_health, aggregate_health}

-- `checks.setdefault(k, v)`
unfoldable pub setdefault : String → String → Dict String → Dict String
setdefault k v d = if is_some (lookup k d) then d else insert k v d

module _ {F : Type 0} where
  -- `{r.strike: r for r in rows}.get(strike)`: the last row of a strike wins.
  abbrev pub by_strike : ℤ → List (OptionChainRow F) → Option (OptionChainRow F)
  by_strike strike [] = none
  by_strike strike (row ∷ rows) = elim (by_strike strike rows) [
    | some r ↦ some r
    | none ↦ if eq_ℤ row.strike strike then some row else none
  ]

  abbrev pub missing_strikes : List ℤ → List (OptionChainRow F) → List ℤ
  missing_strikes strikes rows = select (λ s. not (is_some (by_strike s rows))) strikes

-- One feature's check: its failure with a detail, or OK unless the snapshot says more.
abbrev pub check_feature :
    String → String → Bool → String → Dict String × List String → Dict String × List String
check_feature component code valid reason (checks, details) =
    if valid then (setdefault component "OK" checks, details) else (
      insert component code checks,
      append_list details ((component ++ " " ++ code ++ ": " ++ reason) ∷ []),
    )

abbrev missing_reason : (ℤ → String) → List ℤ → String
missing_reason int missing =
    if length missing == 0 then "" else "missing strikes in ATM window: " ++ list_text int missing

-- `interval or other`
abbrev pub or_interval : ℤ → ℤ → ℤ
or_interval interval other = if eq_ℤ interval (pos 0) then other else interval

abbrev pub with_missing : List ℤ → Dict String → Dict String
with_missing [] checks = checks
with_missing (_ ∷ _) checks = insert "OPTION_CHAIN" "INCOMPLETE" checks

module _ {F : Type 0} ⦃fl : Float F⦄ ⦃fm : Format F⦄ where
  abbrev pub atm_features : ℤ → ℤ → List ℤ → List (OptionChainRow F) → AtmFeatures F
  atm_features atm_strike interval strikes rows =
      let row = by_strike atm_strike rows in
      let missing = missing_strikes strikes rows in
      record {
        atm_strike = atm_strike;
        strike_interval = interval;
        strikes = strikes;
        atm_ce = Option.map (λ r. r.ce) row;
        atm_pe = Option.map (λ r. r.pe) row;
        valid = is_some row && length missing == 0;
        reason = missing_reason fm.int missing;
      }

  -- The volume bars' own last close where the VWAP has bars of its own.
  abbrev pub reference_for : F → Option (List (Bar F)) → F
  reference_for spot (some (b ∷ bs)) = (last_bar b bs).close
  reference_for spot _ = spot

  abbrev with_current :
      List (Timestamp × Option F) → Timestamp → Option F → List (Timestamp × Option F)
  with_current history now none = history
  with_current history now (some pcr) = append_list history ((now, some pcr) ∷ [])

  -- The checks and the details, with those of the features laid over the snapshot's.
  unfoldable pub overlay :
      DataHealth F
      → PcrFeatures F
      → VwapFeatures F
      → OiFeatures
      → List ℤ
      → Dict String × List String
  overlay health pcr vwap oi missing =
      let (checks, details) = check_feature "OI" "MISSING" oi.valid oi.reason (
        check_feature "VWAP" "INVALID" vwap.valid vwap.reason
          (check_feature "PCR" "INVALID" pcr.valid pcr.reason (health.checks, health.details))) in
      (with_missing missing checks, details)

  module _ (config : AppConfig F) where
    -- The total PCR of the snapshot before.
    abbrev pub previous_pcr : ℤ → Option (MarketSnapshot F) → Raises (Option F)
    previous_pcr interval none = ok none
    previous_pcr interval (some prev) = do
      atm ← calculate_atm prev.tick.close (or_interval prev.chain.strike_interval interval)
      ok (compute_pcr prev.chain atm config.atm_range).total_pcr

    abbrev pub previous_oi : Option (MarketSnapshot F) → Option OiFeatures
    previous_oi none = none
    previous_oi (some prev) = some (compute_oi prev.chain none)

    -- The container, from the features of the chain and the bars.
    unfoldable pub contain :
        MarketSnapshot F
        → List (Bar F)
        → AtmFeatures F
        → List ℤ
        → PcrFeatures F
        → OiFeatures
        → VwapFeatures F
        → Raises (MarketFeatures F)
    contain snapshot bars atm missing pcr oi vwap =
        let now = snapshot.timestamp in
        let spot = snapshot.tick.close in
        let health = snapshot_health snapshot now (fl.of_int (pos config.max_data_age_seconds)) in
        let (checks, details) = overlay health pcr vwap oi missing in
        do
          status ← aggregate_health checks
          ok (record {
            symbol = snapshot.instrument;
            expiry = snapshot.chain.expiry;
            timestamp = now;
            spot = spot;
            atm = atm;
            pcr = pcr;
            oi = oi;
            vwap = vwap;
            price = price_features spot bars config.price_lookback config.price_flat_band_pct;
            data_health = record {
              status = status;
              age_seconds = data_age_seconds snapshot.tick.timestamp now;
              checks = checks;
              details = details;
            };
            feature_engine_version = "1.0.0";
          })

    -- The PCR with its change and its trend.
    abbrev pub with_trend :
        List (Timestamp × Option F) → Timestamp → Option F → PcrFeatures F → PcrFeatures F
    with_trend history now before base = record base {
      pcr_change = pcr_change base.total_pcr before;
      pcr_trend =
          pcr_trend_from_history (with_current history now base.total_pcr) config.pcr_lookback
            config.pcr_flat_band;
    }

    abbrev pub assemble :
        MarketSnapshot F
        → List (Bar F)
        → List (Timestamp × Option F)
        → Option (MarketSnapshot F)
        → Option (List (Bar F))
        → ℤ
        → ℤ
        → Option F
        → Raises (MarketFeatures F)
    assemble snapshot bars history prev vwap_bars interval atm_strike before =
        let rows = snapshot.chain.rows in
        let strikes = select_strikes atm_strike interval config.atm_range in
        contain snapshot bars (atm_features atm_strike interval strikes rows)
          (missing_strikes strikes rows)
          (with_trend history snapshot.timestamp before
            (compute_pcr snapshot.chain atm_strike config.atm_range))
          (compute_oi snapshot.chain (previous_oi prev))
          (vwap_features (reference_for snapshot.tick.close vwap_bars) (or_else vwap_bars bars))

    unfoldable pub build_features :
        MarketSnapshot F
        → List (Bar F)
        → List (Timestamp × Option F)
        → Option (MarketSnapshot F)
        → Option (List (Bar F))
        → Raises (MarketFeatures F)
    build_features snapshot bars history prev vwap_bars =
        let interval = or_interval snapshot.chain.strike_interval (pos config.strike_interval) in
        do
          atm_strike ← calculate_atm snapshot.tick.close interval
          before ← previous_pcr interval prev
          assemble snapshot bars history prev vwap_bars interval atm_strike before
