-- ===== src/Features/Complete.antt =====
-- backend/engines/feature_engine.py: what a check that is OK says of what it was made from.
use theta_plus.Base.{
  ◌≡◌, ◌≢◌, refl, Bool, true, false, not, some, String, List, [], ◌∷◌, arith, str_eq, str_eq_iff,
  starts_with, any, Bool-cases, inl, inr,
}
use theta_plus.Base.Int.{ℤ}
use theta_plus.Base.Float.{Float, Format}
use theta_plus.Base.Dict.{Dict, lookup, lookup-insert}
use theta_plus.Market.{health_text, stale}
use theta_plus.Features.Health.{Absorbed, absorb_age, absorb_tick}
use theta_plus.Features.Build.{check_feature, with_missing}
use theta_plus.Features.Overlay.{lookup-check_feature, lookup-absorb, lookup-absorb_tick}

-- The check of a component is OK, if there is one.
abbrev pub GoodAt : String → Dict String → Type 0
GoodAt k checks = (c : String) → lookup k checks ≡ some c → c ≡ "OK"

pub differs : (a b : String) → str_eq a b ≡ false → a ≢ b
differs a b h e = ground (arith, str_eq_iff a b)

pub with_missing-GoodAt :
    (missing : List ℤ) (d : Dict String)
    → GoodAt "OPTION_CHAIN" (with_missing missing d)
    → missing ≡ []
with_missing-GoodAt [] d g = refl
with_missing-GoodAt (m ∷ ms) d g = absurd (
    differs "INCOMPLETE" "OK" refl
      (g "INCOMPLETE" (lookup-insert "OPTION_CHAIN" "OPTION_CHAIN" "INCOMPLETE" d)))

pub with_missing-GoodAt_other :
    (missing : List ℤ) (d : Dict String) (k : String)
    → GoodAt "OPTION_CHAIN" (with_missing missing d)
    → GoodAt k (with_missing missing d)
    → GoodAt k d
with_missing-GoodAt_other missing d k chain g = rw (with_missing-GoodAt missing d chain) at g

module _ (component code : String) (valid : Bool) (reason : String)
    (h : Dict String × List String) where
  -- A feature's check is good only if the feature is valid.
  pub check_feature-valid :
      str_eq code "OK" ≡ false
      → GoodAt component (check_feature component code valid reason h).0
      → valid ≡ true
  check_feature-valid bad g = elim (Bool-cases valid) [
    | inl v ↦ v
    | inr e ↦
        let shown : lookup component (check_feature component code valid reason h).0 ≡ some code =
          ground (
            arith,
            lookup-check_feature component component code valid reason h,
            str_eq_iff component component,
          ) in
        ground (arith, g code shown, str_eq_iff code "OK")
  ]

  -- The checks of the other components stay.
  pub check_feature-other :
      (k : String)
      → str_eq component k ≡ false
      → GoodAt k (check_feature component code valid reason h).0
      → GoodAt k h.0
  check_feature-other k other g c e =
      g c (ground (arith, lookup-check_feature k component code valid reason h))

pub absorb_tick-clean :
    (issues : List String) (h : Absorbed)
    → GoodAt "PRICE" (absorb_tick issues h).1
    → any (λ i. not (starts_with "DATA_AGE" i)) issues ≡ false
absorb_tick-clean issues h g =
    elim (Bool-cases (any (λ i. not (starts_with "DATA_AGE" i)) issues)) [
      | inr e ↦ e
      | inl found ↦
          let shown : lookup "PRICE" (absorb_tick issues h).1 ≡ some "INVALID" =
            ground (arith, lookup-absorb_tick "PRICE" issues h) in
          absurd (differs "INVALID" "OK" refl (g "INVALID" shown))
    ]

pub absorb_age-fresh :
    {F : Type 0} ⦃fl : Float F⦄ ⦃fm : Format F⦄ (age max_age : F) (h : Absorbed)
    → GoodAt "DATA_AGE" (absorb_age age max_age h).1
    → fl.lt max_age age ≡ false
unfolding health_text
absorb_age-fresh ⦃fl⦄ age max_age h g = elim (Bool-cases (fl.lt max_age age)) [
  | inr e ↦ e
  | inl late ↦
      let shown : lookup "DATA_AGE" (absorb_age age max_age h).1 ≡ some "STALE" =
        rw late (lookup-absorb "DATA_AGE" stale "DATA_AGE" _ h) in
      absurd (differs "STALE" "OK" refl (g "STALE" shown))
]
