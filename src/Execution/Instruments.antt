-- ===== src/Execution/Instruments.antt =====
-- backend/execution/instruments.py: the lookup in the operator's mapping and the checks of a row.
pub mod Laws
pub mod Mapping
use theta_plus.Base.{
  ℕ, ◌%◌, Bool, true, false, not, ◌&&◌, ◌||◌, Option, none, some, String, List, if◌then◌else◌,
  str_eq, truthy, find_first, ◌==◌,
}
use theta_plus.Base.Int.{ℤ, eq_ℤ, magnitude}
use theta_plus.Base.Float.{Float, f_le}
use theta_plus.Engine.Models.{Side, ce, pe}
use theta_plus.Execution.Models.{InstrumentRef}

-- OPTION_TYPES at the two sides that the service asks for
abbrev pub option_type : Side → String
option_type ce = "CALL"
option_type pe = "PUT"

abbrev pub same_strike : Option ℤ → ℤ → Bool
same_strike none s = false
same_strike (some t) s = eq_ℤ t s

-- The row is for this contract.
abbrev pub matches : String → ℤ → Side → String → InstrumentRef → Bool
matches underlying strike side expiry ref =
    str_eq ref.underlying underlying
    && same_strike ref.strike strike
    && str_eq ref.option_type (option_type side)
    && str_eq ref.expiry expiry

-- `InstrumentMap.resolve`: the first row that fits, and none without an expiry.
unfoldable pub resolve : List InstrumentRef → String → ℤ → Side → String → Option InstrumentRef
resolve refs underlying strike side expiry =
    if truthy expiry then find_first (matches underlying strike side expiry) refs else none

-- `lot_size and quantity % lot_size != 0`: the sign of the lot size does not matter.
abbrev bad_lot : ℤ → ℕ → Bool
bad_lot lot quantity = not (magnitude lot == 0) && not (quantity % magnitude lot == 0)

module _ {F : Type 0} ⦃fl : Float F⦄ where
  -- The price is missing, zero, negative, NaN or infinite.
  abbrev bad_price : Option F → Bool
  bad_price none = true
  bad_price (some p) =
      f_le p fl.nought || not (fl.eq p p) || fl.eq p fl.infinity || fl.eq p fl.minus_infinity

  unfoldable pub validate_instrument : Option InstrumentRef → ℕ → Option F → Bool
  validate_instrument none quantity ltp = false
  validate_instrument (some ref) quantity ltp =
      truthy ref.security_id
      && ref.tradable
      && not (bad_price ltp)
      && not (bad_lot ref.lot_size quantity)
