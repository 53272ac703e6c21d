-- ===== src/Execution/Instruments/Mapping/Verdict.antt =====
-- backend/execution/instruments.py: the rows that `validate_instrument_map` accepts, described by the
-- kinds of row.
use theta_plus.Base.{
  ℕ, ◌≡◌, refl, true, false, Option, none, some, String, List, [], ◌∷◌, All, arith, ◌↔◌, Bool-cases,
  inl, inr,
}
use theta_plus.Base.Int.{ℤ, pos, leb_ℤ}
use theta_plus.Base.Raises.{Raises, ok, raised}
use theta_plus.Engine.Models.{Side}
use theta_plus.Execution.Instruments.Mapping.{
  Field, Kind, nifty, nifty_future, option_kind, InstrumentType, index, futidx, optidx, futstk,
  optstk, equity, option_types, valid_segment, Row, accepted,
}
use theta_plus.Execution.Instruments.Mapping.Rows.{
  upper_text, strike_of, strike_verdict, option_verdict, type_verdict, type_of, segment_verdict,
  fields_verdict, row_verdict,
}
use theta_plus.Execution.Instruments.Mapping.Fields.{
  needed, IsGiven, nothing_missing, missing_nothing,
}

module _ {V : Type 0} ⦃fd : Field V⦄ where
  -- The strike of an option is a number above zero.
  abbrev pub IsStrike : Option V → Type 0
  IsStrike strike = (n : ℤ) × (strike_of strike ≡ ok n) × (leb_ℤ n (pos 0) ≡ false)

  -- The kind that a row of a type counts for.
  abbrev pub OfKind : Row V → InstrumentType → Option Kind → Type 0
  OfKind row index kind = kind ≡ some nifty
  OfKind row futidx kind = kind ≡ some nifty_future
  OfKind row optidx kind =
      (side : Side) × (option_types (upper_text (row "option_type")) ≡ some side)
      × IsStrike (row "strike")
      × (kind ≡ some (option_kind side))
  OfKind row _ kind = kind ≡ none

  pub record IsRow (row : Row V) (kind : Option Kind) : Type 0 where
    pub type : InstrumentType
    pub typed : type_of row ≡ some type
    pub given : All (IsGiven row) (needed type)
    pub segment : valid_segment (upper_text (row "exchange_segment")) ≡ true
    pub kept : OfKind row type kind

  strike_verdict-IsStrike :
      (prefix : String) (strike : Option V) (side : Side) (call : Raises ℤ) (kind : Option Kind)
      → strike_verdict prefix strike side call ≡ ok (accepted kind)
      → ((n : ℤ) × (call ≡ ok n) × (leb_ℤ n (pos 0) ≡ false)) × (kind ≡ some (option_kind side))
  unfolding strike_verdict
  strike_verdict-IsStrike prefix strike side (ok n) kind h = elim (Bool-cases (leb_ℤ n (pos 0))) [
    | inl e ↦ absurd (ground (arith, e))
    | inr e ↦ ((n, refl, e), ground (arith, e))
  ]
  strike_verdict-IsStrike prefix strike side (raised e) kind h = absurd (ground arith)

  option_verdict-OfKind :
      (prefix : String) (row : Row V) (side : Option Side) (kind : Option Kind)
      → option_verdict prefix row side ≡ ok (accepted kind)
      → (s : Side) × (side ≡ some s) × IsStrike (row "strike") × (kind ≡ some (option_kind s))
  unfolding option_verdict
  option_verdict-OfKind prefix row none kind h = absurd cc
  option_verdict-OfKind prefix row (some s) kind h =
      let k = strike_verdict-IsStrike prefix (row "strike") s _ kind h in (s, refl, k.0, k.1)

  type_verdict-OfKind :
      (prefix : String) (row : Row V) (type : Option InstrumentType) (kind : Option Kind)
      → type_verdict prefix row type ≡ ok (accepted kind)
      → (t : InstrumentType) × (type ≡ some t) × OfKind row t kind
  unfolding type_verdict
  type_verdict-OfKind prefix row none kind h = absurd cc
  type_verdict-OfKind prefix row (some index) kind h = (index, refl, cc)
  type_verdict-OfKind prefix row (some futidx) kind h = (futidx, refl, cc)
  type_verdict-OfKind prefix row (some optidx) kind h =
      (optidx, refl, option_verdict-OfKind prefix row _ kind h)
  type_verdict-OfKind prefix row (some futstk) kind h = (futstk, refl, cc)
  type_verdict-OfKind prefix row (some optstk) kind h = (optstk, refl, cc)
  type_verdict-OfKind prefix row (some equity) kind h = (equity, refl, cc)

  OfKind-type_verdict :
      (prefix : String) (row : Row V) (t : InstrumentType) (kind : Option Kind)
      → OfKind row t kind
      → type_verdict prefix row (some t) ≡ ok (accepted kind)
  unfolding type_verdict option_verdict strike_verdict
  OfKind-type_verdict prefix row index kind h = cc
  OfKind-type_verdict prefix row futidx kind h = cc
  OfKind-type_verdict prefix row optidx kind (side, o, (n, s, p), k) = rw (o, s, p, k) refl
  OfKind-type_verdict prefix row futstk kind h = cc
  OfKind-type_verdict prefix row optstk kind h = cc
  OfKind-type_verdict prefix row equity kind h = cc

  fields_verdict-accepted :
      (prefix : String) (row : Row V) (fs : List String) (kind : Option Kind)
      → fields_verdict prefix row fs ≡ ok (accepted kind)
      → (fs ≡ []) × (segment_verdict prefix row ≡ ok (accepted kind))
  fields_verdict-accepted prefix row [] kind h = (refl, h)
  fields_verdict-accepted prefix row (f ∷ fs) kind h = absurd cc

  segment_verdict-accepted :
      (prefix : String) (row : Row V) (kind : Option Kind)
      → segment_verdict prefix row ≡ ok (accepted kind)
      → (valid_segment (upper_text (row "exchange_segment")) ≡ true)
        × (type_verdict prefix row (type_of row) ≡ ok (accepted kind))
  unfolding segment_verdict
  segment_verdict-accepted prefix row kind h =
      elim (Bool-cases (valid_segment (upper_text (row "exchange_segment")))) [
        | inl e ↦ (e, rw e at h)
        | inr e ↦ absurd (ground (arith, e))
      ]

  accepted-fields_verdict :
      (prefix : String) (row : Row V) (fs : List String) (kind : Option Kind)
      → fs ≡ []
      → segment_verdict prefix row ≡ ok (accepted kind)
      → fields_verdict prefix row fs ≡ ok (accepted kind)
  accepted-fields_verdict prefix row fs kind e h = rw e h

  accepted-segment_verdict :
      (prefix : String) (row : Row V) (kind : Option Kind)
      → IsRow row kind
      → segment_verdict prefix row ≡ ok (accepted kind)
  unfolding segment_verdict
  accepted-segment_verdict prefix row kind r =
      rw (r.segment, r.typed) (OfKind-type_verdict prefix row r.type kind r.kept)

  -- The validation accepts the row whatever its number.
  pub row_verdict_iff :
      (i : ℕ) (row : Row V) (kind : Option Kind)
      → (row_verdict i row ≡ ok (accepted kind)) ↔ IsRow row kind
  unfolding row_verdict
  row_verdict_iff i row kind = (
    λ h.
        let a = fields_verdict-accepted _ row _ kind h in
        let b = segment_verdict-accepted _ row kind a.1 in
        let c = type_verdict-OfKind _ row _ kind b.1 in
        record {
          type = c.0;
          typed = c.1;
          given = missing_nothing row c.0 c.1 a.0;
          segment = b.0;
          kept = c.2;
        },
    λ r.
        accepted-fields_verdict _ row _ kind (nothing_missing row r.type r.typed r.given)
          (accepted-segment_verdict _ row kind r),
  )
