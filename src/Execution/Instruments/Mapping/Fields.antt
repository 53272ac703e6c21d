-- ===== src/Execution/Instruments/Mapping/Fields.antt =====
-- backend/execution/instruments.py: a row lacks no field exactly when it has those that its type needs.
use theta_plus.Base.{
  ◌≡◌, refl, ◌∙◌, sym, true, false, not, Bool, ◌&&◌, Option, none, some, String, List, [], ◌∷◌, All,
  select, arith, ap, Bool-cases, inl, inr,
}
use theta_plus.Execution.Instruments.Mapping.{
  Field, InstrumentType, index, futidx, optidx, futstk, optstk, equity, Row, required_map_fields,
}
use theta_plus.Execution.Instruments.Mapping.Rows.{
  excused, absent, is_missing, type_of, missing_fields,
}

-- The fields that a row of a type needs.
abbrev pub needed : InstrumentType → List String
needed index = "security_id" ∷ "exchange_segment" ∷ "instrument_type" ∷ []
needed futidx = "security_id" ∷ "exchange_segment" ∷ "instrument_type" ∷ "expiry" ∷ []
needed _ = required_map_fields

pub select-nil :
    {A : Type 0} (p : A → Bool) (xs : List A) → All (λ x. p x ≡ false) xs → select p xs ≡ []
select-nil p [] h = refl
select-nil p (x ∷ xs) (h, hs) = rw h (select-nil p xs hs)

pub nil-select :
    {A : Type 0} (p : A → Bool) (xs : List A) → select p xs ≡ [] → All (λ x. p x ≡ false) xs
nil-select p [] h = tt
nil-select p (x ∷ xs) h = elim (Bool-cases (p x)) [
  | inl e ↦ absurd cc
  | inr e ↦ (e, nil-select p xs (rw e at h))
]

module _ {V : Type 0} ⦃fd : Field V⦄ where
  -- The field is there, and not blank.
  abbrev pub IsGiven : Row V → String → Type 0
  IsGiven row f = (v : V) × (row f ≡ some v) × (fd.is_blank v ≡ false)

  absent-given :
      (o : Option V) (b : Bool)
      → b ≡ false
      → (absent o && not b) ≡ false
      → (v : V) × (o ≡ some v) × (fd.is_blank v ≡ false)
  absent-given none b e h = absurd (ground arith)
  absent-given (some v) b e h = (v, refl, ground arith)

  given-absent :
      (row : Row V) (f : String) (b : Bool) → IsGiven row f → (absent (row f) && not b) ≡ false
  given-absent row f b (v, e, h) = rw (e, h) refl

  excused-absent : (o : Option V) (b : Bool) → b ≡ true → (absent o && not b) ≡ false
  excused-absent o b e = ground arith

  missing-all :
      (row : Row V) (type : InstrumentType)
      → ((f : String) → excused (some type) f ≡ false)
      → (fs : List String) → All (λ f. is_missing row (some type) f ≡ false) fs
      → All (IsGiven row) fs
  missing-all row type e [] h = tt
  missing-all row type e (f ∷ fs) (h, hs) =
      (absent-given (row f) _ (e f) h, missing-all row type e fs hs)

  all-missing :
      (row : Row V) (type : InstrumentType)
      → ((f : String) → excused (some type) f ≡ false)
      → (fs : List String) → All (IsGiven row) fs
      → All (λ f. is_missing row (some type) f ≡ false) fs
  all-missing row type e [] h = tt
  all-missing row type e (f ∷ fs) (h, hs) = (given-absent row f _ h, all-missing row type e fs hs)

  missing-needed :
      (row : Row V) (type : InstrumentType)
      → All (λ f. is_missing row (some type) f ≡ false) required_map_fields
      → All (IsGiven row) (needed type)
  missing-needed row index (a, (b, (c, _))) =
      (absent-given _ _ refl a, (absent-given _ _ refl b, (absent-given _ _ refl c, tt)))
  missing-needed row futidx (a, (b, (c, (d, _)))) =
      let d' = absent-given (row "expiry") _ refl d in
      (absent-given _ _ refl a, (absent-given _ _ refl b, (absent-given _ _ refl c, (d', tt))))
  missing-needed row optidx h = missing-all row optidx (λ f. refl) required_map_fields h
  missing-needed row futstk h = missing-all row futstk (λ f. refl) required_map_fields h
  missing-needed row optstk h = missing-all row optstk (λ f. refl) required_map_fields h
  missing-needed row equity h = missing-all row equity (λ f. refl) required_map_fields h

  needed-missing :
      (row : Row V) (type : InstrumentType)
      → All (IsGiven row) (needed type)
      → All (λ f. is_missing row (some type) f ≡ false) required_map_fields
  needed-missing row index (a, (b, (c, _))) =
      let d = excused-absent (row "expiry") _ refl in
      let e = excused-absent (row "strike") _ refl in
      let o = excused-absent (row "option_type") _ refl in
      (
        given-absent row _ false a,
        (given-absent row _ false b, (given-absent row _ false c, (d, (e, (o, tt))))),
      )
  needed-missing row futidx (a, (b, (c, (d, _)))) =
      let d' = given-absent row "expiry" false d in
      let e = excused-absent (row "strike") _ refl in
      let o = excused-absent (row "option_type") _ refl in
      (
        given-absent row _ false a,
        (given-absent row _ false b, (given-absent row _ false c, (d', (e, (o, tt))))),
      )
  needed-missing row optidx h = all-missing row optidx (λ f. refl) required_map_fields h
  needed-missing row futstk h = all-missing row futstk (λ f. refl) required_map_fields h
  needed-missing row optstk h = all-missing row optstk (λ f. refl) required_map_fields h
  needed-missing row equity h = all-missing row equity (λ f. refl) required_map_fields h

  typed_missing :
      (row : Row V) (t : InstrumentType)
      → type_of row ≡ some t
      → missing_fields row ≡ select (is_missing row (some t)) required_map_fields
  typed_missing row t e = ap (λ type. select (is_missing row type) required_map_fields) e

  pub nothing_missing :
      (row : Row V) (t : InstrumentType)
      → type_of row ≡ some t
      → All (IsGiven row) (needed t)
      → missing_fields row ≡ []
  nothing_missing row t e h =
      typed_missing row t e
      ∙ select-nil (is_missing row (some t)) required_map_fields (needed-missing row t h)

  pub missing_nothing :
      (row : Row V) (t : InstrumentType)
      → type_of row ≡ some t
      → missing_fields row ≡ []
      → All (IsGiven row) (needed t)
  missing_nothing row t e h =
      missing-needed row t
        (nil-select (is_missing row (some t)) required_map_fields (sym (typed_missing row t e) ∙ h))
