-- ===== src/Execution/Instruments/Laws.antt =====
-- What `InstrumentMap.resolve` (backend/execution/instruments.py) finds.
use theta_plus.Base.{
  ◌≡◌, ap, Bool, true, Option, none, some, String, List, [], ◌∷◌, arith, find_first, str_eq_iff,
}
use theta_plus.Base.Int.{ℤ, eq_of_eq_ℤ}
use theta_plus.Engine.Models.{Side}
use theta_plus.Execution.Models.{InstrumentRef}
use theta_plus.Execution.Instruments.{resolve, matches, option_type, same_strike}

-- The row is for the contract that was asked for.
pub record IsContract (underlying : String) (strike : ℤ) (side : Side) (expiry : String)
    (ref : InstrumentRef) : Type 0 where
  pub same_underlying : ref.underlying ≡ underlying
  pub same_strike : ref.strike ≡ some strike
  pub same_type : ref.option_type ≡ option_type side
  pub same_expiry : ref.expiry ≡ expiry

strike-eq : (strike : Option ℤ) (s : ℤ) → same_strike strike s ≡ true → strike ≡ some s
strike-eq none s h = cc
strike-eq (some t) s h = ap some (eq_of_eq_ℤ t s h)

matches-IsContract :
    (underlying : String) (strike : ℤ) (side : Side) (expiry : String) (ref : InstrumentRef)
    → matches underlying strike side expiry ref ≡ true
    → IsContract underlying strike side expiry ref
matches-IsContract underlying strike side expiry ref h = ground (
  arith,
  str_eq_iff ref.underlying underlying,
  str_eq_iff ref.option_type (option_type side),
  str_eq_iff ref.expiry expiry,
  strike-eq ref.strike strike,
)

find_first-holds :
    {A : Type 0} (test : A → Bool) (xs : List A) (x : A)
    → find_first test xs ≡ some x
    → test x ≡ true
find_first-holds test [] x h = cc
find_first-holds test (y ∷ ys) x h = ground (arith, find_first-holds test ys x)

-- A row that `resolve` returns is for exactly the contract that was asked for.
pub resolve-IsContract :
    (refs : List InstrumentRef) (underlying : String) (strike : ℤ) (side : Side) (expiry : String)
    (ref : InstrumentRef)
    → resolve refs underlying strike side expiry ≡ some ref
    → IsContract underlying strike side expiry ref
unfolding resolve
resolve-IsContract refs underlying strike side expiry ref h =
    matches-IsContract underlying strike side expiry ref
      (find_first-holds (matches underlying strike side expiry) refs ref (ground arith))
