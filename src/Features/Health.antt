-- ===== src/Features/Health.antt =====
-- backend/data/validators.py: the health of a snapshot. An issue is its text, which the source reads
-- back to classify it.
use Prim.Native.String.{◌++◌}
use mathlib.Core.List.{◌++◌ as append_list}
use theta_plus.Base.{
  ℕ, Bool, ◌&&◌, ◌||◌, String, List, [], ◌∷◌, if◌then◌else◌, ltb, take, select, map, str_eq,
  starts_with, contains_text,
}
use theta_plus.Base.Int.{ℤ, pos, sub_ℕ, ltb_ℤ, eq_ℤ}
use theta_plus.Base.Float.{Float, Format, f_max}
use theta_plus.Base.Dict.{Dict, insert, values}
use theta_plus.Base.Raises.{Raises, ok, raised, value_error}
use theta_plus.Clock.{Timestamp}
use theta_plus.Market.{
  HealthCode, health_text, healthy, stale, invalid, missing, incomplete, InstrumentTick,
  OptionChainRow, OptionChain, MarketSnapshot, DataHealth,
}

module _ {F : Type 0} ⦃fl : Float F⦄ where
  -- `(now - timestamp).total_seconds()`
  abbrev seconds_since : Timestamp → Timestamp → F
  seconds_since timestamp now = fl.int_div (sub_ℕ now timestamp) (pos 1_000_000)

  unfoldable pub is_stale : Timestamp → Timestamp → F → Bool
  is_stale timestamp now max_age = fl.lt max_age (seconds_since timestamp now)

  unfoldable pub data_age_seconds : Timestamp → Timestamp → F
  data_age_seconds timestamp now = f_max (seconds_since timestamp now) fl.nought

-- One issue, if the test holds.
abbrev pub issue_if : Bool → String → List String → List String
issue_if test text rest = if test then text ∷ rest else rest

-- A list of integers as Python writes it.
abbrev pub list_text : (ℤ → String) → List ℤ → String
list_text int [] = "[]"
list_text int (n ∷ ns) = "[" ++ int n ++ more ns
  where
    more : List ℤ → String
    more [] = "]"
    more (m ∷ ms) = ", " ++ int m ++ more ms

abbrev pub zero_issue : (ℤ → String) → List ℤ → List String
zero_issue int [] = []
zero_issue int (k ∷ ks) =
    ("OPTION_CHAIN INCOMPLETE: zero OI at strikes " ++ list_text int (take 5 (k ∷ ks))) ∷ []

abbrev pub no_oi : {F : Type 0} → OptionChainRow F → Bool
no_oi row = eq_ℤ row.ce.oi (pos 0) && eq_ℤ row.pe.oi (pos 0)

module _ {F : Type 0} ⦃fl : Float F⦄ ⦃fm : Format F⦄ where
  unfoldable pub tick_issues : InstrumentTick F → Timestamp → F → List String
  tick_issues tick now max_age =
      issue_if (is_stale tick.timestamp now max_age)
        ("DATA_AGE STALE: age "
          ++ fm.whole (data_age_seconds tick.timestamp now)
          ++ "s > "
          ++ fm.whole max_age
          ++ "s")
        (issue_if
          (fl.le tick.close fl.nought
            || fl.le tick.opening fl.nought
            || fl.le tick.high fl.nought
            || fl.le tick.low fl.nought)
          ("PRICE INVALID: non-positive OHLC (close=" ++ fm.plain tick.close ++ ")")
          (issue_if (fl.lt tick.high tick.low) "PRICE INVALID: high < low"
            (issue_if (ltb_ℤ tick.volume (pos 0)) "VOLUME INVALID: negative volume" [])))

  abbrev pub row_issues : List (OptionChainRow F) → List String → List String
  row_issues [] rest = rest
  row_issues (row ∷ rows) rest =
      issue_if (fl.lt row.ce.ltp fl.nought || fl.lt row.pe.ltp fl.nought)
        ("OPTION_CHAIN INVALID: negative LTP at strike " ++ fm.int row.strike)
        (issue_if (ltb_ℤ row.ce.oi (pos 0) || ltb_ℤ row.pe.oi (pos 0))
          ("OPTION_CHAIN INVALID: negative OI at strike " ++ fm.int row.strike)
          (row_issues rows rest))

  abbrev pub content_issues : List (OptionChainRow F) → List String
  content_issues [] = "OPTION_CHAIN INCOMPLETE: empty option chain" ∷ []
  content_issues (row ∷ rows) =
      row_issues (row ∷ rows) (zero_issue fm.int (map (λ r. r.strike) (select no_oi (row ∷ rows))))

  unfoldable pub chain_issues : OptionChain F → Timestamp → F → List String
  chain_issues chain now max_age =
      issue_if (is_stale chain.timestamp now max_age)
        ("DATA_AGE STALE: chain age " ++ fm.whole (data_age_seconds chain.timestamp now) ++ "s")
        (content_issues chain.rows)

-- The state of `absorb`: status, checks, details.
abbrev pub Absorbed : Type 0
Absorbed = HealthCode × Dict String × List String

abbrev worse : HealthCode → HealthCode → HealthCode
worse status invalid = invalid
worse healthy code = code
worse invalid code = invalid
worse status healthy = status
worse status code = code

unfoldable pub absorb : HealthCode → String → String → Absorbed → Absorbed
absorb code component detail (status, checks, details) = (
  worse status code,
  insert component (health_text code) checks,
  append_list details (detail ∷ []),
)

unfoldable pub absorb_tick : List String → Absorbed → Absorbed
absorb_tick [] h = h
absorb_tick (issue ∷ issues) h =
    if starts_with "DATA_AGE" issue
    then absorb_tick issues h
    else absorb_tick issues (absorb invalid "PRICE" issue h)

abbrev pub chain_code : String → HealthCode
chain_code issue =
    if starts_with "DATA_AGE" issue
    then stale
    else (if contains_text "INCOMPLETE" issue then incomplete else invalid)

unfoldable pub absorb_chain : List String → Absorbed → Absorbed
absorb_chain [] h = h
absorb_chain (issue ∷ issues) h =
    absorb_chain issues (absorb (chain_code issue) "OPTION_CHAIN" issue h)

module _ {F : Type 0} ⦃fl : Float F⦄ ⦃fm : Format F⦄ where
  abbrev pub absorb_age : F → F → Absorbed → Absorbed
  absorb_age age max_age h =
      if fl.lt max_age age
      then absorb stale "DATA_AGE"
          ("data age " ++ fm.whole age ++ "s exceeds " ++ fm.whole max_age ++ "s") h
      else h

  -- With no issue of the chain, its check is set to OK, which it is already.
  abbrev pub health_parts : MarketSnapshot F → Timestamp → F → Absorbed
  health_parts snapshot now max_age = absorb_chain (chain_issues snapshot.chain now max_age) (
      absorb_tick (tick_issues snapshot.tick now max_age) (
        absorb_age (data_age_seconds snapshot.tick.timestamp now) max_age
          (healthy, ("DATA_AGE", "OK") ∷ ("OPTION_CHAIN", "OK") ∷ [], [])))

  unfoldable pub snapshot_health : MarketSnapshot F → Timestamp → F → DataHealth F
  snapshot_health snapshot now max_age =
      let (status, checks, details) = health_parts snapshot now max_age in
      record {
        status = status;
        age_seconds = data_age_seconds snapshot.tick.timestamp now;
        checks = checks;
        details = details;
      }

-- `severity.get(code, 5)`
unfoldable pub severity : String → ℕ
severity code =
    if str_eq code "OK"
    then 0
    else (if str_eq code "INCOMPLETE"
        then 1
        else (if str_eq code "STALE"
            then 2
            else (if str_eq code "MISSING" then 3 else (if str_eq code "INVALID" then 4 else 5))))

-- `max(..., key=severity)` keeps the first of the worst.
abbrev pub worst_of : String → List String → String
worst_of code [] = code
worst_of code (c ∷ cs) = worst_of (if ltb (severity code) (severity c) then c else code) cs

-- `HealthCode(text)`
unfoldable pub health_code : String → Raises HealthCode
health_code text =
    if str_eq text "OK"
    then ok healthy
    else (if str_eq text "STALE"
        then ok stale
        else (if str_eq text "INVALID"
            then ok invalid
            else (if str_eq text "MISSING"
                then ok missing
                else (if str_eq text "INCOMPLETE" then ok incomplete else raised value_error))))

abbrev worst : List String → String
worst [] = "OK"
worst (c ∷ cs) = worst_of c cs

unfoldable pub aggregate_health : Dict String → Raises HealthCode
aggregate_health checks = health_code (worst (values checks))
