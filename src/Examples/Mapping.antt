-- ===== src/Examples/Mapping.antt =====
-- Tests and a concrete mapping for the validation of the operator's instruments.
use theta_plus.Base.{
  Bool, ◌≡◌, refl, false, Option, none, some, String, List, [], ◌∷◌, if◌then◌else◌, str_eq, ◌↔◌,
}
use theta_plus.Base.Int.{ℤ, pos}
use theta_plus.Base.Raises.{Raises, ok, raised, type_error}
use theta_plus.Execution.Instruments.Mapping.{
  Field, Row, MapReport, passed, failed, option_types, instrument_types, valid_segment,
}
use theta_plus.Execution.Instruments.Mapping.Rows.{
  strike_verdict, option_verdict, type_verdict, segment_verdict, row_verdict, check_rows,
  validate_instrument_map,
}
use theta_plus.Execution.Instruments.Mapping.Complete.{IsComplete}
use theta_plus.Execution.Instruments.Mapping.Status.{
  supplied, instrument_map_status, instrument_map_status-IsComplete,
}

data Cell : Type 0 where
  word : String → Cell
  number : ℤ → Cell

abbrev blank_cell : Cell → Bool
blank_cell (word s) = str_eq s ""
blank_cell (number n) = false

abbrev cell_text : Cell → String
cell_text (word s) = s
cell_text (number n) = "n"

abbrev cell_int : Cell → Raises ℤ
cell_int (word s) = raised type_error
cell_int (number n) = ok n

-- The texts of the tests are in capitals.
instance abbrev cell_Field : Field Cell
cell_Field = record {
  is_blank = blank_cell;
  text = cell_text;
  int = cell_int;
  repr = cell_text;
  upper = λ s. s;
  quoted = λ s. s;
  index = λ i. "i";
}

abbrev row_of : String → String → Option Cell → Option Cell → Option Cell → Row Cell
row_of segment type expiry strike option f =
    if str_eq f "security_id"
    then some (word "13")
    else (if str_eq f "exchange_segment"
        then some (word segment)
        else (if str_eq f "instrument_type"
            then some (word type)
            else (if str_eq f "expiry"
                then expiry
                else (if str_eq f "strike"
                    then strike
                    else (if str_eq f "option_type" then option else none)))))

abbrev future_row : Row Cell
future_row = row_of "NSE_FNO" "FUTIDX" (some (word "2026-01-29")) none none

abbrev option_row : String → Row Cell
option_row side =
    row_of "NSE_FNO" "OPTIDX" (some (word "2026-01-29")) (some (number (pos 25050)))
      (some (word side))

abbrev four_rows : List (Row Cell)
four_rows =
    row_of "IDX_I" "INDEX" none none none ∷ future_row ∷ option_row "CE" ∷ option_row "PUT" ∷ []

abbrev status_of : Raises MapReport → Option MapReport
status_of (ok r) = some r
status_of (raised e) = none

four_rows_pass :
    (r : MapReport) × (instrument_map_status (supplied four_rows) ≡ ok r) × (r.status ≡ passed)
unfolding instrument_map_status validate_instrument_map check_rows row_verdict segment_verdict
    type_verdict option_verdict strike_verdict option_types instrument_types valid_segment
four_rows_pass = (_, refl, refl)

future_missing :
    (r : MapReport) × (validate_instrument_map (option_row "CE" ∷ []) ≡ ok r) × (r.status ≡ failed)
unfolding validate_instrument_map check_rows row_verdict segment_verdict type_verdict option_verdict
    strike_verdict option_types instrument_types valid_segment
future_missing = (_, refl, refl)

instrument_map_status-IsComplete_example :
    ((r : MapReport) × (instrument_map_status (supplied four_rows) ≡ ok r) × (r.status ≡ passed))
    ↔ ((rows : List (Row Cell)) × (supplied four_rows ≡ supplied rows) × IsComplete rows)
instrument_map_status-IsComplete_example = instrument_map_status-IsComplete (supplied four_rows)
