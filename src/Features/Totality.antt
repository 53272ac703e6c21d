-- ===== src/Features/Totality.antt =====
-- backend/engines/feature_engine.py: the only calls of `build_features` that can raise are those for the
-- strikes.
use theta_plus.Base.{
  refl, Bool, true, false, Option, String, List, [], ◌∷◌, All, if_ind, if◌then◌else◌, str_eq, ltb,
}
use theta_plus.Base.Int.{ℤ, pos}
use theta_plus.Base.Float.{Float, Format}
use theta_plus.Base.Dict.{Dict, insert, values}
use theta_plus.Base.Raises.{Returns, >>=-Returns}
use theta_plus.Clock.{Timestamp}
use theta_plus.Config.{AppConfig}
use theta_plus.Market.{
  HealthCode, health_text, healthy, stale, invalid, missing, incomplete, AtmFeatures, PcrFeatures,
  OiFeatures, VwapFeatures, DataHealth, MarketSnapshot,
}
use theta_plus.Features.Chain.{calculate_atm}
use theta_plus.Features.Bars.{Bar}
use theta_plus.Features.Health.{
  Absorbed, absorb, absorb_tick, absorb_chain, chain_code, severity, worst_of, health_code,
  snapshot_health, tick_issues, chain_issues, data_age_seconds, aggregate_health,
}
use theta_plus.Features.Build.{
  setdefault, check_feature, with_missing, overlay, or_interval, previous_pcr, contain,
  build_features,
}

-- A text that `HealthCode(text)` accepts.
abbrev pub IsCode : String → Type 0
IsCode text = Returns (health_code text)

abbrev Coded : Dict String → Type 0
Coded checks = All IsCode (values checks)

health_text-IsCode : (code : HealthCode) → IsCode (health_text code)
unfolding health_text health_code
health_text-IsCode healthy = (healthy, refl)
health_text-IsCode stale = (stale, refl)
health_text-IsCode invalid = (invalid, refl)
health_text-IsCode missing = (missing, refl)
health_text-IsCode incomplete = (incomplete, refl)

insert-Coded : (k v : String) (d : Dict String) → IsCode v → Coded d → Coded (insert k v d)
unfolding insert
insert-Coded k v [] c h = (c, tt)
insert-Coded k v ((j, w) ∷ d) c (h, hs) =
    if_ind Coded (str_eq j k) {x = (j, v) ∷ d} {y = (j, w) ∷ insert k v d} (c, hs)
      (h, insert-Coded k v d c hs)

setdefault-Coded : (k v : String) (d : Dict String) → IsCode v → Coded d → Coded (setdefault k v d)
unfolding setdefault
setdefault-Coded k v d c h = if_ind Coded _ h (insert-Coded k v d c h)

absorb_tick-Coded :
    (issues : List String) (h : Absorbed) → Coded h.1 → Coded (absorb_tick issues h).1
unfolding absorb_tick absorb
absorb_tick-Coded [] h c = c
absorb_tick-Coded (issue ∷ issues) h c =
    if_ind (λ (r : Absorbed). Coded r.1) _ (absorb_tick-Coded issues h c)
      (absorb_tick-Coded issues (absorb invalid "PRICE" issue h)
        (insert-Coded "PRICE" _ h.1 (health_text-IsCode invalid) c))

absorb_chain-Coded :
    (issues : List String) (h : Absorbed) → Coded h.1 → Coded (absorb_chain issues h).1
unfolding absorb_chain absorb
absorb_chain-Coded [] h c = c
absorb_chain-Coded (issue ∷ issues) h c =
    absorb_chain-Coded issues (absorb (chain_code issue) "OPTION_CHAIN" issue h)
      (insert-Coded "OPTION_CHAIN" _ h.1 (health_text-IsCode (chain_code issue)) c)

ok-IsCode : IsCode "OK"
unfolding health_code
ok-IsCode = (healthy, refl)

check_feature-Coded :
    (component code : String) (valid : Bool) (reason : String) (h : Dict String × List String)
    → IsCode code
    → Coded h.0
    → Coded (check_feature component code valid reason h).0
check_feature-Coded component code true reason h c k =
    setdefault-Coded component "OK" h.0 ok-IsCode k
check_feature-Coded component code false reason h c k = insert-Coded component code h.0 c k

with_missing-Coded : (strikes : List ℤ) (d : Dict String) → Coded d → Coded (with_missing strikes d)
unfolding health_code
with_missing-Coded [] d h = h
with_missing-Coded (_ ∷ _) d h = insert-Coded "OPTION_CHAIN" "INCOMPLETE" d (incomplete, refl) h

worst_of-IsCode :
    (code : String) (cs : List String) → IsCode code → All IsCode cs → IsCode (worst_of code cs)
worst_of-IsCode code [] h hs = h
worst_of-IsCode code (c ∷ cs) h (k, ks) =
    worst_of-IsCode (if ltb (severity code) (severity c) then c else code) cs
      (if_ind IsCode (ltb (severity code) (severity c)) k h) ks

aggregate_health_total : (checks : Dict String) → Coded checks → Returns (aggregate_health checks)
unfolding aggregate_health
aggregate_health_total [] h = ok-IsCode
aggregate_health_total ((k, c) ∷ checks) (h, hs) = worst_of-IsCode c (values checks) h hs

module _ {F : Type 0} ⦃fl : Float F⦄ ⦃fm : Format F⦄ where
  snapshot_health-Coded :
      (snapshot : MarketSnapshot F) (now : Timestamp) (max_age : F)
      → Coded (snapshot_health snapshot now max_age).checks
  unfolding snapshot_health absorb
  snapshot_health-Coded snapshot now max_age =
      absorb_chain-Coded (chain_issues snapshot.chain now max_age) _ (
        absorb_tick-Coded (tick_issues snapshot.tick now max_age) _ (
          if_ind (λ (r : Absorbed). Coded r.1)
            (fl.lt max_age (data_age_seconds snapshot.tick.timestamp now))
            (insert-Coded "DATA_AGE" _ _ (health_text-IsCode stale) (ok-IsCode, (ok-IsCode, tt)))
            (ok-IsCode, (ok-IsCode, tt))))

  overlay-Coded :
      (health : DataHealth F) (pcr : PcrFeatures F) (vwap : VwapFeatures F) (oi : OiFeatures)
      (strikes : List ℤ)
      → Coded health.checks
      → Coded (overlay health pcr vwap oi strikes).0
  unfolding overlay health_code
  overlay-Coded health pcr vwap oi strikes h = with_missing-Coded strikes _ (
      check_feature-Coded "OI" "MISSING" oi.valid oi.reason _ (missing, refl)
        (check_feature-Coded "VWAP" "INVALID" vwap.valid vwap.reason _ (invalid, refl)
          (check_feature-Coded "PCR" "INVALID" pcr.valid pcr.reason (health.checks, health.details)
            (invalid, refl) h)))

  module _ (config : AppConfig F) where
    contain_total :
        (snapshot : MarketSnapshot F) (bars : List (Bar F)) (atm : AtmFeatures F) (strikes : List ℤ)
        (pcr : PcrFeatures F) (oi : OiFeatures) (vwap : VwapFeatures F)
        → Returns (contain config snapshot bars atm strikes pcr oi vwap)
    unfolding contain
    contain_total snapshot bars atm strikes pcr oi vwap =
        >>=-Returns (aggregate_health _) _
          (aggregate_health_total _
            (overlay-Coded _ pcr vwap oi strikes (snapshot_health-Coded snapshot _ _)))
          (λ status. (_, refl))

    -- Whatever the market data, building the features raises nothing where the strikes of the snapshot
    -- and of the one before can be computed.
    pub build_features_total :
        (snapshot : MarketSnapshot F) (bars : List (Bar F)) (history : List (Timestamp × Option F))
        (prev : Option (MarketSnapshot F)) (vwap_bars : Option (List (Bar F)))
        → (let interval = or_interval snapshot.chain.strike_interval (pos config.strike_interval) in
            Returns (calculate_atm snapshot.tick.close interval)
            → Returns (previous_pcr config interval prev)
            → Returns (build_features config snapshot bars history prev vwap_bars))
    unfolding build_features
    build_features_total snapshot bars history prev vwap_bars found known =
        >>=-Returns _ _ found
          (λ atm. >>=-Returns _ _ known (λ before. contain_total snapshot bars _ _ _ _ _))
