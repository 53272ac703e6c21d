-- ===== src/Execution/Instruments/Mapping/Status.antt =====
-- backend/execution/instruments.py: the status of the mapping that the environment names. What reading
-- the file gives is a parameter.
use Prim.Native.String.{◌++◌}
use theta_plus.Base.{◌≡◌, ◌≢◌, refl, ◌∙◌, ap, String, List, [], ◌↔◌}
use theta_plus.Base.Raises.{Raises, ok, raised, other_error, ok_injective}
use theta_plus.Execution.Instruments.Mapping.{
  Field, Row, MapReport, nifty, passed, failed, nothing_supplied,
}
use theta_plus.Execution.Instruments.Mapping.Rows.{validate_instrument_map}
use theta_plus.Execution.Instruments.Mapping.Complete.{
  IsComplete, validate_instrument_map-IsComplete,
}

-- What the environment gives: no path, a path without a file, a file that is not JSON, one whose JSON
-- holds no list of objects, or rows.
pub data MapFile (V : Type 0) : Type 0 where
  unset : MapFile V
  not_found : String → MapFile V
  not_json : String → MapFile V
  malformed : MapFile V
  supplied : List (Row V) → MapFile V

-- `{**report, "status": "FAIL", "note": ...}` for the report of no rows
abbrev failed_with : String → MapReport
failed_with note = record nothing_supplied { status = failed; note = note }

failed-passed : failed ≢ passed
failed-passed h = cc

not_passed : (note : String) (r : MapReport) → ok (failed_with note) ≡ ok r → r.status ≢ passed
not_passed note r h e = failed-passed (ap (λ x. x.status) (ok_injective h) ∙ e)

module _ {V : Type 0} ⦃fd : Field V⦄ where
  unfoldable pub instrument_map_status : MapFile V → Raises MapReport
  instrument_map_status unset = validate_instrument_map {V = V} []
  instrument_map_status (not_found name) =
      ok (failed_with ("DHAN_INSTRUMENT_MAP_PATH set but file not found: " ++ name))
  instrument_map_status (not_json error) =
      ok (failed_with ("mapping file is not valid JSON: " ++ error))
  instrument_map_status malformed = raised other_error
  instrument_map_status (supplied rows) = validate_instrument_map rows

  -- The mapping of the environment passes exactly when its file gives rows and these are complete: each
  -- row has a known type and segment, every field that its type needs and, for an index option, a known
  -- side and a strike above zero, and each canonical kind has a row. Nothing is asked of the side and
  -- the strike of an option on a stock but that they are given.
  pub instrument_map_status-IsComplete :
      (file : MapFile V)
      → ((r : MapReport) × (instrument_map_status file ≡ ok r) × (r.status ≡ passed))
        ↔ ((rows : List (Row V)) × (file ≡ supplied rows) × IsComplete rows)
  unfolding instrument_map_status
  instrument_map_status-IsComplete unset = (
    λ p. absurd (((validate_instrument_map-IsComplete {V = V} []).0 p).counts nifty),
    λ (rows, e, c). absurd cc,
  )
  instrument_map_status-IsComplete (not_found name) =
      (λ (r, h, e). absurd (not_passed _ r h e), λ (rows, e, c). absurd cc)
  instrument_map_status-IsComplete (not_json error) =
      (λ (r, h, e). absurd (not_passed _ r h e), λ (rows, e, c). absurd cc)
  instrument_map_status-IsComplete malformed = (λ (r, h, e). absurd cc, λ (rows, e, c). absurd cc)
  instrument_map_status-IsComplete (supplied rows) = (
    λ p. (rows, refl, (validate_instrument_map-IsComplete rows).0 p),
    λ (rows', e, c).
        let same : rows ≡ rows' = cc in (validate_instrument_map-IsComplete rows).1 (rw same c),
  )
