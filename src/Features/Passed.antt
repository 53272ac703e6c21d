-- ===== src/Features/Passed.antt =====
-- backend/engines/feature_engine.py and backend/data/validators.py: what a feature set whose checks are
-- all OK says of its features and of its snapshot.
use theta_plus.Base.{◌≡◌, ◌≢◌, refl, ◌∙◌, true, false, String, List, [], ◌∷◌, All, str_eq}
use theta_plus.Base.Int.{ℤ}
use theta_plus.Base.Float.{Float, Format}
use theta_plus.Base.Dict.{Dict}
use theta_plus.Clock.{Timestamp}
use theta_plus.Market.{healthy, PcrFeatures, VwapFeatures, OiFeatures, DataHealth, MarketSnapshot}
use theta_plus.Features.Health.{
  Absorbed, is_stale, data_age_seconds, absorb_age, absorb_tick, tick_issues, chain_issues,
  snapshot_health,
}
use theta_plus.Features.Build.{check_feature, overlay}
use theta_plus.Features.Overlay.{lookup-absorb_tick, absorb_chain-ok, lookup-absorb_chain_other}
use theta_plus.Features.Complete.{
  GoodAt, with_missing-GoodAt, with_missing-GoodAt_other, check_feature-valid, check_feature-other,
  absorb_tick-clean, absorb_age-fresh,
}
use theta_plus.Features.Clean.{IsQuoted, IsCandle, chain_issues-IsQuoted, tick_issues-IsCandle}

module _ {F : Type 0} ⦃fl : Float F⦄ ⦃fm : Format F⦄ where
  -- What overlaid checks that are all OK say.
  pub record IsPassed (health : DataHealth F) (pcr : PcrFeatures F) (vwap : VwapFeatures F)
      (oi : OiFeatures) (missing : List ℤ) : Type 0 where
    pub pcr_valid : pcr.valid ≡ true
    pub vwap_valid : vwap.valid ≡ true
    pub oi_valid : oi.valid ≡ true
    pub none_missing : missing ≡ []
    pub age : GoodAt "DATA_AGE" health.checks
    pub price : GoodAt "PRICE" health.checks
    pub chain : GoodAt "OPTION_CHAIN" health.checks

  module _ (health : DataHealth F) (pcr : PcrFeatures F) (vwap : VwapFeatures F) (oi : OiFeatures)
      (missing : List ℤ) where
    abbrev first_checks : Dict String × List String
    first_checks =
        check_feature "PCR" "INVALID" pcr.valid pcr.reason (health.checks, health.details)

    abbrev second_checks : Dict String × List String
    second_checks = check_feature "VWAP" "INVALID" vwap.valid vwap.reason first_checks

    abbrev third_checks : Dict String × List String
    third_checks = check_feature "OI" "MISSING" oi.valid oi.reason second_checks

    pub overlay-IsPassed :
        ((k : String) → GoodAt k (overlay health pcr vwap oi missing).0)
        → IsPassed health pcr vwap oi missing
    unfolding overlay
    overlay-IsPassed g = record {
      pcr_valid =
          check_feature-valid "PCR" "INVALID" pcr.valid pcr.reason (health.checks, health.details)
            refl (after_first "PCR" refl refl);
      vwap_valid =
          check_feature-valid "VWAP" "INVALID" vwap.valid vwap.reason first_checks refl
            (after_second "VWAP" refl);
      oi_valid =
          check_feature-valid "OI" "MISSING" oi.valid oi.reason second_checks refl
            (after_third "OI");
      none_missing = with_missing-GoodAt missing third_checks.0 (g "OPTION_CHAIN");
      age = before "DATA_AGE" refl refl refl;
      price = before "PRICE" refl refl refl;
      chain = before "OPTION_CHAIN" refl refl refl;
    }
      where
        after_third : (k : String) → GoodAt k third_checks.0
        after_third k = with_missing-GoodAt_other missing third_checks.0 k (g "OPTION_CHAIN") (g k)

        after_second : (k : String) → str_eq "OI" k ≡ false → GoodAt k second_checks.0
        after_second k o =
            check_feature-other "OI" "MISSING" oi.valid oi.reason second_checks k o (after_third k)

        after_first :
            (k : String) → str_eq "OI" k ≡ false → str_eq "VWAP" k ≡ false → GoodAt k first_checks.0
        after_first k o v =
            check_feature-other "VWAP" "INVALID" vwap.valid vwap.reason first_checks k v
              (after_second k o)

        before :
            (k : String)
            → str_eq "OI" k ≡ false
            → str_eq "VWAP" k ≡ false
            → str_eq "PCR" k ≡ false
            → GoodAt k health.checks
        before k o v p =
            check_feature-other "PCR" "INVALID" pcr.valid pcr.reason (health.checks, health.details)
              k p (after_first k o v)

  -- A snapshot with these three checks good has no fault.
  pub record IsSoundSnapshot (snapshot : MarketSnapshot F) (now : Timestamp) (max_age : F)
      : Type 0 where
    pub fresh : fl.lt max_age (data_age_seconds snapshot.tick.timestamp now) ≡ false
    pub candle : IsCandle snapshot.tick
    pub chain_fresh : is_stale snapshot.chain.timestamp now max_age ≡ false
    pub listed : snapshot.chain.rows ≢ []
    pub quoted : All IsQuoted snapshot.chain.rows

  pub snapshot_health-IsSoundSnapshot :
      (snapshot : MarketSnapshot F) (now : Timestamp) (max_age : F)
      → GoodAt "DATA_AGE" (snapshot_health snapshot now max_age).checks
      → GoodAt "PRICE" (snapshot_health snapshot now max_age).checks
      → GoodAt "OPTION_CHAIN" (snapshot_health snapshot now max_age).checks
      → IsSoundSnapshot snapshot now max_age
  unfolding snapshot_health
  snapshot_health-IsSoundSnapshot snapshot now max_age age price chain =
      let (chain_fresh, listed, quoted) =
        chain_issues-IsQuoted snapshot.chain now max_age
          (absorb_chain-ok chain_texts ticked chain) in
      record {
        fresh =
            absorb_age-fresh (data_age_seconds snapshot.tick.timestamp now) max_age start (λ c e.
              age c (
                lookup-absorb_chain_other "DATA_AGE" chain_texts ticked refl
                ∙ (lookup-absorb_tick "DATA_AGE" tick_texts aged ∙ e)));
        candle = tick_issues-IsCandle snapshot.tick now max_age (
            absorb_tick-clean tick_texts aged
              (λ c e. price c (lookup-absorb_chain_other "PRICE" chain_texts ticked refl ∙ e)));
        chain_fresh = chain_fresh;
        listed = listed;
        quoted = quoted;
      }
    where
      start : Absorbed
      start = (healthy, ("DATA_AGE", "OK") ∷ ("OPTION_CHAIN", "OK") ∷ [], [])

      tick_texts : List String
      tick_texts = tick_issues snapshot.tick now max_age

      chain_texts : List String
      chain_texts = chain_issues snapshot.chain now max_age

      aged : Absorbed
      aged = absorb_age (data_age_seconds snapshot.tick.timestamp now) max_age start

      ticked : Absorbed
      ticked = absorb_tick tick_texts aged
