-- ===== src/Engine/Health.antt =====
-- backend/engines/signal_engine.py: the reason codes of the data-health gate.
use Prim.Native.Nat.{Ordering}
use Prim.Native.String.{compare, ◌++◌}
use theta_plus.Base.{
  String, List, [], ◌∷◌, if◌then◌else◌, ◌&&◌, str_eq, Option, none, some, or_else,
}
use theta_plus.Base.Dict.{Dict}
use theta_plus.Market.{HealthCode, health_text, MarketFeatures}

-- _HEALTH_REASON_CODES
abbrev reason_codes : List (String × String × String)
reason_codes =
    ("DATA_AGE", "STALE", "DATA_STALE")
    ∷ ("DATA_AGE", "INVALID", "DATA_INVALID")
    ∷ ("DATA_AGE", "MISSING", "DATA_MISSING")
    ∷ ("DATA_AGE", "INCOMPLETE", "DATA_INCOMPLETE")
    ∷ ("PCR", "INVALID", "PCR_INVALID")
    ∷ ("PCR", "MISSING", "PCR_MISSING")
    ∷ ("PCR", "INCOMPLETE", "PCR_INCOMPLETE")
    ∷ ("VWAP", "INVALID", "VWAP_INVALID")
    ∷ ("VWAP", "MISSING", "VWAP_MISSING")
    ∷ ("OI", "MISSING", "OI_MISSING")
    ∷ ("OI", "INVALID", "OI_INVALID")
    ∷ ("OPTION_CHAIN", "INCOMPLETE", "OPTION_CHAIN_INCOMPLETE")
    ∷ ("OPTION_CHAIN", "INVALID", "OPTION_CHAIN_INVALID")
    ∷ ("OPTION_CHAIN", "STALE", "OPTION_CHAIN_STALE")
    ∷ ("PRICE", "INVALID", "PRICE_INVALID")
    ∷ []

find_code : String → String → List (String × String × String) → Option String
find_code component status [] = none
find_code component status ((c, s, code) ∷ rest) =
    if str_eq c component && str_eq s status then some code else find_code component status rest

reason_code : String → String → String
unfolding find_code
reason_code component status =
    or_else (find_code component status reason_codes) (component ++ "_" ++ status)

-- `sorted(checks.items())`: the components are distinct keys, so their order decides.
insert_sorted : String → String → Dict String → Dict String
insert_sorted c s [] = (c, s) ∷ []
insert_sorted c s ((d, t) ∷ rest) = elim (compare c d) [
  | Ordering.gt ↦ (d, t) ∷ insert_sorted c s rest
  | _ ↦ (c, s) ∷ (d, t) ∷ rest
]

pub sorted_items : Dict String → Dict String
unfolding insert_sorted
sorted_items [] = []
sorted_items ((c, s) ∷ rest) = insert_sorted c s (sorted_items rest)

failing : Dict String → List String
failing [] = []
failing ((c, s) ∷ rest) =
    if str_eq s (health_text HealthCode.healthy)
    then failing rest
    else reason_code c s ∷ failing rest

or_status : List String → String → List String
or_status [] status = ("DATA_" ++ status) ∷ []
or_status (r ∷ rs) status = r ∷ rs

-- A code for every component that is not OK.
unfoldable pub health_reasons : {F : Type 0} → MarketFeatures F → List String
unfolding failing or_status sorted_items reason_code
health_reasons f =
    or_status (failing (sorted_items f.data_health.checks)) (health_text f.data_health.status)
