-- ===== src/Execution/Instruments/Mapping/Rows.antt =====
-- backend/execution/instruments.py: the loop of `validate_instrument_map` over the rows.
use Prim.Native.String.{◌++◌}
use theta_plus.Base.{
  ℕ, suc, Bool, true, false, not, ◌&&◌, ◌||◌, Option, none, some, String, List, [], ◌∷◌,
  if◌then◌else◌, str_eq, select,
}
use theta_plus.Base.Int.{ℤ, pos, leb_ℤ}
use theta_plus.Base.Raises.{Raises, ok, raised, ◌>>=◌, type_error, value_error, other_error}
use theta_plus.Engine.Models.{Side}
use theta_plus.Execution.Instruments.Mapping.{
  Field, InstrumentType, RowVerdict, MapReport, option_types, instrument_types, valid_segment,
  option_kind, required_map_fields, Row, Tally, counted, nothing_supplied, empty_tally, report,
  index, futidx, optidx, nifty, nifty_future, rejected, accepted,
}

-- The fields that a future or an index may go without.
abbrev pub excused : Option InstrumentType → String → Bool
excused (some futidx) f = str_eq f "strike" || str_eq f "option_type"
excused (some index) f = str_eq f "strike" || str_eq f "option_type" || str_eq f "expiry"
excused _ f = false

-- `", ".join(fields)`
abbrev joined : List String → String
joined [] = ""
joined (f ∷ []) = f
joined (f ∷ g ∷ fs) = f ++ ", " ++ joined (g ∷ fs)

module _ {V : Type 0} ⦃fd : Field V⦄ where
  -- `f not in row or row[f] in ("", None)`
  abbrev pub absent : Option V → Bool
  absent none = true
  absent (some v) = fd.is_blank v

  -- `str(row.get(f, "")).upper()`
  abbrev pub upper_text : Option V → String
  upper_text none = fd.upper ""
  upper_text (some v) = fd.upper (fd.text v)

  abbrev repr_of : Option V → String
  repr_of none = "None"
  repr_of (some v) = fd.repr v

  abbrev pub is_missing : Row V → Option InstrumentType → String → Bool
  is_missing row type f = absent (row f) && not (excused type f)

  -- `int(row["strike"])`, where a `KeyError` would leave the loop.
  abbrev pub strike_of : Option V → Raises ℤ
  strike_of none = raised other_error
  strike_of (some v) = fd.int v

  -- A strike that is not positive and one that is no number end alike.
  unfoldable pub strike_verdict : String → Option V → Side → Raises ℤ → Raises RowVerdict
  strike_verdict prefix strike side (ok n) =
      if leb_ℤ n (pos 0)
      then ok (rejected (prefix ++ "strike " ++ repr_of strike ++ " is not a positive number"))
      else ok (accepted (some (option_kind side)))
  strike_verdict prefix strike side (raised type_error) =
      ok (rejected (prefix ++ "strike " ++ repr_of strike ++ " is not a positive number"))
  strike_verdict prefix strike side (raised value_error) =
      ok (rejected (prefix ++ "strike " ++ repr_of strike ++ " is not a positive number"))
  strike_verdict prefix strike side (raised e) = raised e

  unfoldable pub option_verdict : String → Row V → Option Side → Raises RowVerdict
  option_verdict prefix row none = ok (
      rejected (
        prefix
        ++ "option_type "
        ++ fd.quoted (upper_text (row "option_type"))
        ++ " is not CE/PE/CALL/PUT"))
  option_verdict prefix row (some side) =
      strike_verdict prefix (row "strike") side (strike_of (row "strike"))

  unfoldable pub type_verdict : String → Row V → Option InstrumentType → Raises RowVerdict
  type_verdict prefix row none = ok (
      rejected
        (prefix ++ "unknown instrument_type " ++ fd.quoted (upper_text (row "instrument_type"))))
  type_verdict prefix row (some optidx) =
      option_verdict prefix row (option_types (upper_text (row "option_type")))
  type_verdict prefix row (some futidx) = ok (accepted (some nifty_future))
  type_verdict prefix row (some index) = ok (accepted (some nifty))
  type_verdict prefix row (some _) = ok (accepted none)

  abbrev pub type_of : Row V → Option InstrumentType
  type_of row = instrument_types (upper_text (row "instrument_type"))

  abbrev pub missing_fields : Row V → List String
  missing_fields row = select (is_missing row (type_of row)) required_map_fields

  unfoldable pub segment_verdict : String → Row V → Raises RowVerdict
  segment_verdict prefix row =
      if not (valid_segment (upper_text (row "exchange_segment")))
      then ok (
          rejected (
            prefix
            ++ "unknown exchange_segment "
            ++ fd.quoted (upper_text (row "exchange_segment"))))
      else type_verdict prefix row (type_of row)

  abbrev pub fields_verdict : String → Row V → List String → Raises RowVerdict
  fields_verdict prefix row [] = segment_verdict prefix row
  fields_verdict prefix row (f ∷ fs) = ok (rejected (prefix ++ "missing " ++ joined (f ∷ fs)))

  -- One round of the `for` loop, up to what it counts.
  unfoldable pub row_verdict : ℕ → Row V → Raises RowVerdict
  row_verdict i row = fields_verdict ("row " ++ fd.index i ++ ": ") row (missing_fields row)

  unfoldable pub check_rows : ℕ → List (Row V) → Tally → Raises Tally
  check_rows i [] t = ok t
  check_rows i (row ∷ rows) t =
      row_verdict i row >>= (λ verdict. check_rows (suc i) rows (counted t verdict))

  unfoldable pub validate_instrument_map : List (Row V) → Raises MapReport
  validate_instrument_map [] = ok nothing_supplied
  validate_instrument_map (row ∷ rows) =
      check_rows 0 (row ∷ rows) empty_tally >>= (λ t. ok (report (row ∷ rows) t))
