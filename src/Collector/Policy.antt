-- ===== src/Collector/Policy.antt =====
-- personal-trading-phase1/app/policy.py. Dates are numbers of days; `random.randint` of the standard
-- library is a parameter.
use theta_plus.Base.{
  ℕ, zero, suc, ◌+◌, ◌-◌, ◌*◌, ◌/◌, ◌||◌, String, List, [], ◌∷◌, if◌then◌else◌, ltb, str_eq, elem,
  starts_with,
}
use Prim.Native.Nat.{◌^◌}
use theta_plus.Base.Raises.{Raises, ok, raised, value_error}
use theta_plus.Collector.RateGate.{max_of, min_of}

abbrev derivatives : List String
derivatives = "FUTIDX" ∷ "FUTSTK" ∷ "OPTIDX" ∷ "OPTSTK" ∷ []

abbrev currencies : List String
currencies = "FUTCUR" ∷ "OPTCUR" ∷ []

-- `TYPES.get(segment, set())`
unfoldable pub types_of : String → List String
types_of segment =
    if str_eq segment "IDX_I"
    then "INDEX" ∷ []
    else if elem segment ("NSE_EQ" ∷ "BSE_EQ" ∷ [])
    then "EQUITY" ∷ []
    else if elem segment ("NSE_FNO" ∷ "BSE_FNO" ∷ [])
    then derivatives
    else if elem segment ("NSE_CURRENCY" ∷ "BSE_CURRENCY" ∷ [])
    then currencies
    else []

pub data Identity : Type 0 where
  accepted commodity_hold needs_mapping : Identity

-- The two refusals are ValueErrors with these names.
unfoldable pub validate_identity : String → String → Identity
validate_identity segment instrument_type =
    if starts_with "MCX" segment || elem instrument_type ("FUTCOM" ∷ "OPTFUT" ∷ [])
    then commodity_hold
    else if elem instrument_type (types_of segment)
    then accepted
    else needs_mapping

-- The windows from `start`, on fuel: each takes at least a day off.
unfoldable pub windows_from : ℕ → ℕ → ℕ → List (ℕ × ℕ)
windows_from zero start end = []
windows_from (suc fuel) start end =
    let stop = min_of (start + 90) end in
    let rest = windows_from fuel stop end in if ltb start end then (start, stop) ∷ rest else []

unfoldable pub windows : ℕ → ℕ → List (ℕ × ℕ)
windows start end = windows_from (end - start) start end

-- `delay` for an attempt from 1 on; `retry_after or 0` is 0 for None.
unfoldable pub retry_delay : (ℕ → ℕ → ℕ) → ℕ → ℕ → ℕ → ℕ → Raises ℕ
retry_delay randint attempt base cap retry_after =
    let ceiling = min_of cap (base * 2 ^ (attempt - 1)) in
    let least = max_of 1 (ceiling / 2) in
    if ltb ceiling least
    then raised value_error
    else ok (max_of (randint least ceiling) retry_after)
