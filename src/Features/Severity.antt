-- ===== src/Features/Severity.antt =====
-- backend/data/validators.py: the aggregate of the checks is OK only if every check is.
use theta_plus.Base.{
  ℕ, ◌≤◌, ◌≡◌, refl, ap, some, String, List, [], ◌∷◌, arith, All, str_eq_iff, if_cases, ltb,
}
use theta_plus.Base.Dict.{Dict, lookup, values}
use theta_plus.Base.Raises.{ok}
use theta_plus.Market.{healthy}
use theta_plus.Features.Health.{severity, worst_of, health_code, aggregate_health}

worst_of-first : (code : String) (cs : List String) → severity code ≤ severity (worst_of code cs)
worst_of-first code [] = omega arith
worst_of-first code (c ∷ cs) =
    if_cases (λ w. severity code ≤ severity (worst_of w cs)) (ltb (severity code) (severity c))
      (λ h. ground (arith, worst_of-first c cs)) (λ h. worst_of-first code cs)

worst_of-others :
    (code : String) (cs : List String) → All (λ c. severity c ≤ severity (worst_of code cs)) cs
worst_of-others code [] = tt
worst_of-others code (c ∷ cs) =
    if_cases (λ w. All (λ x. severity x ≤ severity (worst_of w cs)) (c ∷ cs))
      (ltb (severity code) (severity c)) (λ h. (worst_of-first c cs, worst_of-others c cs))
      (λ h. (ground (arith, worst_of-first code cs), worst_of-others code cs))

severity-zero : (c : String) → severity c ≤ 0 → c ≡ "OK"
unfolding severity
severity-zero c h = ground (arith, str_eq_iff c "OK")

health_code-healthy : (text : String) → health_code text ≡ ok healthy → text ≡ "OK"
unfolding health_code
health_code-healthy text h = ground (arith, str_eq_iff text "OK")

All-zero :
    (bound : ℕ) (cs : List String)
    → bound ≤ 0
    → All (λ c. severity c ≤ bound) cs
    → All (λ c. c ≡ "OK") cs
All-zero bound [] z h = tt
All-zero bound (c ∷ cs) z (h, hs) = (severity-zero c (omega arith), All-zero bound cs z hs)

severity-ok : severity "OK" ≡ 0
unfolding severity
severity-ok = refl

-- An aggregate that is OK has no check that is not.
pub aggregate_health-healthy :
    (checks : Dict String)
    → aggregate_health checks ≡ ok healthy
    → All (λ c. c ≡ "OK") (values checks)
unfolding aggregate_health
aggregate_health-healthy [] h = tt
aggregate_health-healthy ((k, c) ∷ checks) h =
    let named = health_code-healthy (worst_of c (values checks)) h in
    let nought : severity (worst_of c (values checks)) ≤ 0 =
      ground (arith, ap severity named, severity-ok) in
    All-zero (severity (worst_of c (values checks))) (c ∷ values checks) nought
      (worst_of-first c (values checks), worst_of-others c (values checks))

-- A check that is looked up among checks that are all OK is OK.
pub lookup-ok :
    (k : String) (checks : Dict String) (c : String)
    → All (λ v. v ≡ "OK") (values checks)
    → lookup k checks ≡ some c
    → c ≡ "OK"
unfolding lookup
lookup-ok k [] c h e = cc
lookup-ok k ((j, d) ∷ checks) c (h, hs) e = ground (arith, lookup-ok k checks c hs)
