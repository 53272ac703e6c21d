-- ===== src/Execution/Instruments/Mapping/Complete.antt =====
-- backend/execution/instruments.py: when `validate_instrument_map` passes a mapping.
use theta_plus.Base.{
  ℕ, suc, ◌+◌, ◌≤◌, ◌≡◌, ◌≢◌, if◌then◌else◌, refl, ◌∙◌, sym, ap, true, false, not, Bool, Option,
  none, some, List, [], ◌∷◌, All, select, length, ◌==◌, arith, ◌↔◌, ◌⊎◌, inl, inr, &&-true,
  Bool-cases,
}
use theta_plus.Base.Raises.{ok, ok_injective, >>=-eq-ok}
use theta_plus.Execution.Instruments.Mapping.{
  Field, Kind, nifty, nifty_future, nifty_ce, nifty_pe, same_kind, add, canonical_kinds, Row, Tally,
  counted, RowVerdict, rejected, accepted, MapReport, pending, passed, failed, report, empty_tally,
  nothing_supplied,
}
use theta_plus.Execution.Instruments.Mapping.Rows.{row_verdict, check_rows, validate_instrument_map}
use theta_plus.Execution.Instruments.Mapping.Fields.{nil-select}
use theta_plus.Execution.Instruments.Mapping.Verdict.{IsRow, row_verdict_iff}

same_kind-eq : (k j : Kind) → same_kind k j ≡ true → k ≡ j
same_kind-eq nifty nifty h = refl
same_kind-eq nifty_future nifty_future h = refl
same_kind-eq nifty_ce nifty_ce h = refl
same_kind-eq nifty_pe nifty_pe h = refl
same_kind-eq _ _ h = absurd cc

same_kind_refl : (k : Kind) → same_kind k k ≡ true
same_kind_refl nifty = refl
same_kind_refl nifty_future = refl
same_kind_refl nifty_ce = refl
same_kind_refl nifty_pe = refl

add-true :
    (kind : Option Kind) (kinds : Kind → Bool) (k : Kind)
    → add kind kinds k ≡ true
    → (kind ≡ some k) ⊎ (kinds k ≡ true)
add-true none kinds k h = inr h
add-true (some j) kinds k h = elim (Bool-cases (same_kind j k)) [
  | inl e ↦ inl (ap some (same_kind-eq j k e))
  | inr e ↦ inr (rw e at h)
]

true-add :
    (kind : Option Kind) (kinds : Kind → Bool) (k : Kind)
    → (kind ≡ some k) ⊎ (kinds k ≡ true)
    → add kind kinds k ≡ true
true-add none kinds k (inl e) = absurd cc
true-add none kinds k (inr e) = e
true-add (some j) kinds k (inl e) = let same : j ≡ k = cc in rw (same, same_kind_refl k) refl
true-add (some j) kinds k (inr e) = ground arith

none_left : (xs : List Kind) → (length xs == 0) ≡ true → xs ≡ []
none_left [] h = refl
none_left (x ∷ xs) h = absurd (ground arith)

only_found : {P : Type 0} → P ⊎ ⊥ → P
only_found (inl p) = p
only_found (inr p) = absurd p

only_counts : {P : Type 0} → (false ≡ true) ⊎ P → P
only_counts (inl e) = absurd cc
only_counts (inr p) = p

pending_or_passed : pending ≢ passed
pending_or_passed h = cc

same_number : (a b : ℕ) → (a == b) ≡ true → a ≡ b
same_number a b h = ground arith

unsupplied : (r : MapReport) → ok nothing_supplied ≡ ok r → r.status ≢ passed
unsupplied r h e = pending_or_passed (ap (λ x. x.status) (ok_injective h) ∙ e)

if_passed : (b : Bool) → (if b then passed else failed) ≡ passed → b ≡ true
if_passed true h = refl
if_passed false h = absurd cc

-- No canonical kind is lacking.
all_kinds :
    (kinds : Kind → Bool)
    → All (λ k. not (kinds k) ≡ false) canonical_kinds
    → (k : Kind) → kinds k ≡ true
all_kinds kinds (a, (b, (c, (d, _)))) nifty = ground arith
all_kinds kinds (a, (b, (c, (d, _)))) nifty_future = ground arith
all_kinds kinds (a, (b, (c, (d, _)))) nifty_ce = ground arith
all_kinds kinds (a, (b, (c, (d, _)))) nifty_pe = ground arith

module _ {V : Type 0} ⦃fd : Field V⦄ where
  -- A row of the mapping counts for the kind.
  abbrev Counts : Kind → List (Row V) → Type 0
  Counts k [] = ⊥
  Counts k (row ∷ rows) = IsRow row (some k) ⊎ Counts k rows

  abbrev IsListed : Row V → Type 0
  IsListed row = (kind : Option Kind) × IsRow row kind

  -- Every row is one the broker's mapping may have, and each canonical kind has a row.
  pub record IsComplete (rows : List (Row V)) : Type 0 where
    pub listed : All IsListed rows
    pub counts : (k : Kind) → Counts k rows

  check_rows-le :
      (i : ℕ) (rows : List (Row V)) (t t' : Tally)
      → check_rows i rows t ≡ ok t'
      → t'.valid ≤ t.valid + length rows
  unfolding check_rows
  check_rows-le i [] t t' h = rw (sym (ok_injective h)) (omega arith)
  check_rows-le i (row ∷ rows) t t' h =
      let (v, hv, rest) = >>=-eq-ok (row_verdict i row) _ h in
      let le = check_rows-le (suc i) rows (counted t v) t' rest in counted_le v le
    where
      counted_le :
          (v : RowVerdict)
          → t'.valid ≤ (counted t v).valid + length rows
          → t'.valid ≤ t.valid + suc (length rows)
      counted_le (rejected e) le = omega arith
      counted_le (accepted k) le = omega arith

  -- What the rows accepted so far and the rest of the rows count for.
  abbrev Found : List (Row V) → Tally → Tally → Type 0
  Found rows t t' =
      All IsListed rows × ((k : Kind) → t'.kinds k ≡ true → (t.kinds k ≡ true) ⊎ Counts k rows)

  found_here :
      (row : Row V) (rows : List (Row V)) (t : Tally) (kind : Option Kind) (k : Kind)
      → IsRow row kind
      → (add kind t.kinds k ≡ true) ⊎ Counts k rows
      → (t.kinds k ≡ true) ⊎ Counts k (row ∷ rows)
  found_here row rows t kind k r (inl q) = elim (add-true kind t.kinds k q) [
    | inl e ↦ inr (inl (rw e at r))
    | inr e ↦ inl e
  ]
  found_here row rows t kind k r (inr c) = inr (inr c)

  Found-row :
      (i : ℕ) (row : Row V) (rows : List (Row V)) (t t' : Tally) (v : RowVerdict)
      → row_verdict i row ≡ ok v
      → t'.valid ≤ (counted t v).valid + length rows
      → (t'.valid ≡ (counted t v).valid + length rows → Found rows (counted t v) t')
      → t'.valid ≡ t.valid + suc (length rows)
      → Found (row ∷ rows) t t'
  Found-row i row rows t t' (rejected error) hv le next e = absurd (omega arith)
  Found-row i row rows t t' (accepted kind) hv le next e =
      let r = (row_verdict_iff i row kind).0 hv in
      let (all, ks) = next (omega arith) in
      (((kind, r), all), λ k p. found_here row rows t kind k r (ks k p))

  check_rows-Found :
      (i : ℕ) (rows : List (Row V)) (t t' : Tally)
      → check_rows i rows t ≡ ok t'
      → t'.valid ≡ t.valid + length rows
      → Found rows t t'
  unfolding check_rows
  check_rows-Found i [] t t' h e = (tt, λ k p. inl (rw (ok_injective h) p))
  check_rows-Found i (row ∷ rows) t t' h e =
      let (v, hv, rest) = >>=-eq-ok (row_verdict i row) _ h in
      Found-row i row rows t t' v hv (check_rows-le (suc i) rows (counted t v) t' rest)
        (check_rows-Found (suc i) rows (counted t v) t' rest) e

  IsRow-kind :
      (i : ℕ) (row : Row V) (kind : Option Kind) (k : Kind)
      → IsRow row kind
      → IsRow row (some k)
      → kind ≡ some k
  IsRow-kind i row kind k r q =
      let a = (row_verdict_iff i row kind).1 r in let b = (row_verdict_iff i row (some k)).1 q in cc

  found_before :
      (row : Row V) (rows : List (Row V)) (t : Tally) (kind : Option Kind) (k : Kind)
      → IsRow row kind
      → (t.kinds k ≡ true) ⊎ Counts k (row ∷ rows)
      → (add kind t.kinds k ≡ true) ⊎ Counts k rows
  found_before row rows t kind k r (inl e) = inl (true-add kind t.kinds k (inr e))
  found_before row rows t kind k r (inr (inl q)) =
      inl (true-add kind t.kinds k (inl (IsRow-kind 0 row kind k r q)))
  found_before row rows t kind k r (inr (inr c)) = inr c

  Found-check_rows :
      (i : ℕ) (rows : List (Row V)) (t : Tally)
      → All IsListed rows
      → (t' : Tally) × (check_rows i rows t ≡ ok t')
        × (t'.valid ≡ t.valid + length rows)
        × ((k : Kind) → (t.kinds k ≡ true) ⊎ Counts k rows → t'.kinds k ≡ true)
  unfolding check_rows
  Found-check_rows i [] t h = (t, refl, omega arith, λ k p. only_found p)
  Found-check_rows i (row ∷ rows) t ((kind, r), rs) =
      let hv = (row_verdict_iff i row kind).1 r in
      let rec = Found-check_rows (suc i) rows (counted t (accepted kind)) rs in
      (
        rec.0,
        rw hv rec.1,
        omega (arith, rec.2),
        λ k p. rec.3 k (found_before row rows t kind k r p),
      )

  status-passed :
      (rows : List (Row V)) (t : Tally)
      → (report rows t).status ≡ passed
      → (t.valid ≡ length rows) × ((k : Kind) → t.kinds k ≡ true)
  status-passed rows t h =
      let lacking = select (λ k. not (t.kinds k)) canonical_kinds in
      let (a, b) = &&-true (t.valid == length rows) (length lacking == 0) (if_passed _ h) in
      (
        same_number _ _ a,
        all_kinds t.kinds (nil-select (λ k. not (t.kinds k)) canonical_kinds (none_left lacking b)),
      )

  passed-status :
      (rows : List (Row V)) (t : Tally)
      → t.valid ≡ length rows
      → ((k : Kind) → t.kinds k ≡ true)
      → (report rows t).status ≡ passed
  passed-status rows t e h = rw (e, h nifty, h nifty_future, h nifty_ce, h nifty_pe) (ground arith)

  -- The validation passes a mapping exactly when each of its rows has a known type and segment, every
  -- field that its type needs and, for an index option, a side and a strike above zero, and when each
  -- canonical kind has a row.
  pub validate_instrument_map-IsComplete :
      (rows : List (Row V))
      → ((r : MapReport) × (validate_instrument_map rows ≡ ok r) × (r.status ≡ passed))
        ↔ IsComplete rows
  unfolding validate_instrument_map
  validate_instrument_map-IsComplete [] =
      (λ (r, h, e). absurd (unsupplied r h e), λ c. absurd (c.counts nifty))
  validate_instrument_map-IsComplete (row ∷ rows) = (
    λ (r, h, e).
        let (t, ht, hr) = >>=-eq-ok (check_rows 0 (row ∷ rows) empty_tally) _ h in
        let (v, ks) = status-passed (row ∷ rows) t (rw (sym (ok_injective hr)) at e) in
        let (all, found) = check_rows-Found 0 (row ∷ rows) empty_tally t ht (omega (arith, v)) in
        record { listed = all; counts = λ k. only_counts (found k (ks k)) },
    λ c.
        let rec = Found-check_rows 0 (row ∷ rows) empty_tally c.listed in
        (
          report (row ∷ rows) rec.0,
          rw rec.1 refl,
          passed-status (row ∷ rows) rec.0 (omega (arith, rec.2)) (λ k. rec.3 k (inr (c.counts k))),
        ),
  )
