-- ===== src/Execution/Instruments/Mapping.antt =====
-- backend/execution/instruments.py: the structural validation of an operator's mapping. A row is read
-- by its field names; what Python's `str`, `int` and `repr` make of a field is a parameter.
pub mod Rows
pub mod Fields
pub mod Verdict
pub mod Complete
pub mod Status
use theta_plus.Base.{
  ℕ, suc, Bool, true, false, not, ◌&&◌, ◌||◌, Option, none, some, String, List, [], ◌∷◌,
  if◌then◌else◌, str_eq, ◌==◌, take, select, length,
}
use theta_plus.Base.Int.{ℤ, pos, leb_ℤ}
use theta_plus.Base.Raises.{Raises, ok, raised, ◌>>=◌, type_error, value_error, other_error}
use theta_plus.Engine.Models.{Side, ce, pe}

-- What the code asks of the values of a JSON row.
pub record Field (V : Type 0) : Type 0 where
  pub is_blank : V → Bool  -- v in ("", None)
  pub text : V → String  -- str(v)
  pub int : V → Raises ℤ  -- int(v)
  pub repr : V → String  -- repr(v)
  pub upper : String → String  -- s.upper()
  pub quoted : String → String  -- repr(s)
  pub index : ℕ → String  -- str(i)

pub data Kind : Type 0 where
  nifty nifty_future nifty_ce nifty_pe : Kind

pub data InstrumentType : Type 0 where
  index futidx optidx futstk optstk equity : InstrumentType

pub data MapStatus : Type 0 where
  pending passed failed : MapStatus

pub data RowVerdict : Type 0 where
  rejected : String → RowVerdict
  accepted : Option Kind → RowVerdict

pub record MapReport : Type 0 where
  pub status : MapStatus
  pub rows : ℕ
  pub valid_rows : ℕ
  pub errors : List String
  pub canonical_kinds_present : List Kind
  pub canonical_kinds_missing : List Kind
  pub broker_verified : Bool
  pub note : String

-- OPTION_TYPES
unfoldable pub option_types : String → Option Side
option_types s =
    if str_eq s "CE" || str_eq s "CALL"
    then some ce
    else (if str_eq s "PE" || str_eq s "PUT" then some pe else none)

-- VALID_INSTRUMENT_TYPES
unfoldable pub instrument_types : String → Option InstrumentType
instrument_types s =
    if str_eq s "INDEX"
    then some index
    else (if str_eq s "FUTIDX"
        then some futidx
        else (if str_eq s "OPTIDX"
            then some optidx
            else (if str_eq s "FUTSTK"
                then some futstk
                else (if str_eq s "OPTSTK"
                    then some optstk
                    else (if str_eq s "EQUITY" then some equity else none)))))

-- VALID_SEGMENTS
unfoldable pub valid_segment : String → Bool
valid_segment s =
    str_eq s "IDX_I"
    || str_eq s "NSE_EQ"
    || str_eq s "NSE_FNO"
    || str_eq s "BSE_FNO"
    || str_eq s "NSE_CURRENCY"
    || str_eq s "BSE_CURRENCY"
    || str_eq s "MCX_COMM"
    || str_eq s "BSE_EQ"

abbrev pub option_kind : Side → Kind
option_kind ce = nifty_ce
option_kind pe = nifty_pe

abbrev pub same_kind : Kind → Kind → Bool
same_kind nifty nifty = true
same_kind nifty_future nifty_future = true
same_kind nifty_ce nifty_ce = true
same_kind nifty_pe nifty_pe = true
same_kind _ _ = false

-- `set.add`
abbrev pub add : Option Kind → (Kind → Bool) → Kind → Bool
add none kinds k = kinds k
add (some added) kinds k = same_kind added k || kinds k

-- The tuple `sorted(kinds)`, and CANONICAL_KINDS.
abbrev pub kinds_sorted : List Kind
kinds_sorted = nifty ∷ nifty_ce ∷ nifty_future ∷ nifty_pe ∷ []

abbrev pub canonical_kinds : List Kind
canonical_kinds = nifty ∷ nifty_future ∷ nifty_ce ∷ nifty_pe ∷ []

-- REQUIRED_MAP_FIELDS
abbrev pub required_map_fields : List String
required_map_fields =
    "security_id" ∷ "exchange_segment" ∷ "instrument_type" ∷ "expiry" ∷ "strike" ∷ "option_type"
    ∷ []

-- `list.append`
abbrev pub snoc : List String → String → List String
snoc [] x = x ∷ []
snoc (y ∷ ys) x = y ∷ snoc ys x

abbrev pub Row : Type 0 → Type 0
Row V = String → Option V

-- What the loop has counted and collected.
pub record Tally : Type 0 where
  pub valid : ℕ
  pub errors : List String
  pub kinds : Kind → Bool

abbrev pub counted : Tally → RowVerdict → Tally
counted t (rejected error) = record t { errors = snoc t.errors error }
counted t (accepted kind) = record t { valid = suc t.valid; kinds = add kind t.kinds }

abbrev pub nothing_supplied : MapReport
nothing_supplied = record {
  status = pending;
  rows = 0;
  valid_rows = 0;
  errors = [];
  canonical_kinds_present = [];
  canonical_kinds_missing = canonical_kinds;
  broker_verified = false;
  note =
      "INSTRUMENT_MAPPING = PENDING: no mapping supplied (DHAN_INSTRUMENT_MAP_PATH). Live execution stays blocked with SECURITY_ID_UNAVAILABLE.";
}

abbrev pub empty_tally : Tally
empty_tally = record { valid = 0; errors = []; kinds = λ k. false }

abbrev pub report : {V : Type 0} → List (Row V) → Tally → MapReport
report rows t =
    let lacking = select (λ k. not (t.kinds k)) canonical_kinds in
    record {
      status = if t.valid == length rows && length lacking == 0 then passed else failed;
      rows = length rows;
      valid_rows = t.valid;
      errors = take 20 t.errors;
      canonical_kinds_present = select t.kinds kinds_sorted;
      canonical_kinds_missing = lacking;
      broker_verified = false;
      note =
          "structural validation only — securityId correctness at the broker requires Dhan credentials and an instrument-master lookup (PENDING)";
    }
