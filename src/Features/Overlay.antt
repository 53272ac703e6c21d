-- ===== src/Features/Overlay.antt =====
-- backend/data/validators.py and backend/engines/feature_engine.py: which check tells of which fault.
use Prim.Native.Char.{code}
use theta_plus.Base.{
  ◌≡◌, refl, Bool, false, not, ◌&&◌, some, String, List, [], ◌∷◌, arith, str_eq, str_eq_iff, if_ind,
  if◌then◌else◌, is_some, starts_with, contains_text, any,
}
use theta_plus.Base.Dict.{Dict, lookup, lookup-insert}
use theta_plus.Market.{HealthCode, health_text, invalid}
use theta_plus.Features.Health.{Absorbed, absorb, absorb_tick, absorb_chain, chain_code}
use theta_plus.Features.Build.{setdefault, check_feature}

pub lookup-check_feature :
    (j component code : String) (valid : Bool) (reason : String) (h : Dict String × List String)
    → lookup j (check_feature component code valid reason h).0 ≡ (
        if str_eq component j
        then (if valid
            then (if is_some (lookup component h.0) then lookup component h.0 else some "OK")
            else some code)
        else lookup j h.0)
unfolding setdefault
lookup-check_feature j component code valid reason h = ground (
  arith,
  lookup-insert component j "OK" h.0,
  lookup-insert component j code h.0,
  str_eq_iff component j,
)

pub lookup-absorb :
    (j : String) (code : HealthCode) (component detail : String) (h : Absorbed)
    → lookup j (absorb code component detail h).1
      ≡ (if str_eq component j then some (health_text code) else lookup j h.1)
unfolding absorb
lookup-absorb j code component detail h = lookup-insert component j (health_text code) h.1

-- An issue of the tick other than its age shows as PRICE.
pub lookup-absorb_tick :
    (j : String) (issues : List String) (h : Absorbed)
    → lookup j (absorb_tick issues h).1 ≡ (
        if str_eq "PRICE" j && any (λ i. not (starts_with "DATA_AGE" i)) issues
        then some "INVALID"
        else lookup j h.1)
unfolding absorb_tick health_text
lookup-absorb_tick j [] h = ground arith
lookup-absorb_tick j (issue ∷ issues) h = ground (
  arith,
  lookup-absorb_tick j issues h,
  lookup-absorb_tick j issues (absorb invalid "PRICE" issue h),
  lookup-absorb j invalid "PRICE" issue h,
)

-- No issue of the chain is classified as OK.
chain_code-bad : (issue : String) → str_eq (health_text (chain_code issue)) "OK" ≡ false
unfolding health_text
chain_code-bad issue =
    if_ind Bad (starts_with "DATA_AGE" issue) refl
      (if_ind Bad (contains_text "INCOMPLETE" issue) refl refl)
  where
    Bad : HealthCode → Type 0
    Bad c = str_eq (health_text c) "OK" ≡ false

-- The last issue of a chain shows as OPTION_CHAIN.
chain_issue_shows :
    (issue : String) (issues : List String) (h : Absorbed)
    → (c : String) × (lookup "OPTION_CHAIN" (absorb_chain (issue ∷ issues) h).1 ≡ some c)
      × (str_eq c "OK" ≡ false)
unfolding absorb_chain
chain_issue_shows issue [] h = (
  health_text (chain_code issue),
  lookup-absorb "OPTION_CHAIN" (chain_code issue) "OPTION_CHAIN" issue h,
  chain_code-bad issue,
)
chain_issue_shows issue (next ∷ issues) h =
    chain_issue_shows next issues (absorb (chain_code issue) "OPTION_CHAIN" issue h)

-- A chain with issues has a check that is not OK.
pub absorb_chain-ok :
    (issues : List String) (h : Absorbed)
    → ((c : String) → lookup "OPTION_CHAIN" (absorb_chain issues h).1 ≡ some c → c ≡ "OK")
    → issues ≡ []
absorb_chain-ok [] h good = refl
absorb_chain-ok (issue ∷ issues) h good =
    let (c, shown, bad) = chain_issue_shows issue issues h in
    ground (arith, good c shown, str_eq_iff c "OK")

pub lookup-absorb_chain_other :
    (j : String) (issues : List String) (h : Absorbed)
    → str_eq "OPTION_CHAIN" j ≡ false
    → lookup j (absorb_chain issues h).1 ≡ lookup j h.1
unfolding absorb_chain
lookup-absorb_chain_other j [] h o = refl
lookup-absorb_chain_other j (issue ∷ issues) h o = ground (
  arith,
  lookup-absorb_chain_other j issues (absorb (chain_code issue) "OPTION_CHAIN" issue h) o,
  lookup-absorb j (chain_code issue) "OPTION_CHAIN" issue h,
)
