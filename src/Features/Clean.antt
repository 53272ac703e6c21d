-- ===== src/Features/Clean.antt =====
-- backend/data/validators.py: a snapshot without issues has no fault.
use Prim.Native.Char.{Char, code}
use Prim.Native.String.{String, ◌++◌}
use text.Mathlib.TextLemmas.{cons-append}
use theta_plus.Base.{
  ◌≡◌, ◌≢◌, refl, Bool, false, not, List, [], ◌∷◌, arith, All, starts_with, any, ◌==◌, select, map,
}
use theta_plus.Base.Int.{ℤ, pos, ltb_ℤ}
use theta_plus.Base.Float.{Float, Format}
use theta_plus.Clock.{Timestamp}
use theta_plus.Market.{InstrumentTick, OptionChainRow, OptionChain}
use theta_plus.Features.Health.{
  is_stale, issue_if, tick_issues, row_issues, no_oi, zero_issue, content_issues, chain_issues,
}

zero_issue_nil : (int : ℤ → String) (strikes : List ℤ) → zero_issue int strikes ≡ [] → strikes ≡ []
zero_issue_nil int [] h = refl
zero_issue_nil int (k ∷ ks) h = absurd cc

-- A text that begins with another letter is no issue of the age.
other_start :
    (c : Char) (p s : String)
    → (68 == code c) ≡ false
    → starts_with "DATA_AGE" ((String.◌∷◌ c p) ++ s) ≡ false
other_start c p s h = rw (cons-append c p s, h) refl

price_text :
    (s : String) → starts_with "DATA_AGE" ("PRICE INVALID: non-positive OHLC (close=" ++ s) ≡ false
price_text s = other_start "P" "RICE INVALID: non-positive OHLC (close=" s refl

module _ {F : Type 0} ⦃fl : Float F⦄ where
  -- A row with prices and open interest that are not negative, and some open interest.
  abbrev pub IsQuoted : OptionChainRow F → Type 0
  IsQuoted row =
      (fl.lt row.ce.ltp fl.nought ≡ false)
      × (fl.lt row.pe.ltp fl.nought ≡ false)
      × (ltb_ℤ row.ce.oi (pos 0) ≡ false)
      × (ltb_ℤ row.pe.oi (pos 0) ≡ false)
      × (no_oi row ≡ false)

  -- A candle of positive prices with its high not below its low.
  abbrev pub IsCandle : InstrumentTick F → Type 0
  IsCandle tick =
      (fl.le tick.close fl.nought ≡ false)
      × (fl.le tick.opening fl.nought ≡ false)
      × (fl.le tick.high fl.nought ≡ false)
      × (fl.le tick.low fl.nought ≡ false)
      × (fl.lt tick.high tick.low ≡ false)
      × (ltb_ℤ tick.volume (pos 0) ≡ false)

  select_nil :
      (rows : List (OptionChainRow F))
      → map (λ r. r.strike) (select no_oi rows) ≡ []
      → All (λ r. no_oi r ≡ false) rows
  select_nil [] h = tt
  select_nil (row ∷ rows) h = ground (arith, select_nil rows)

  module _ ⦃fm : Format F⦄ where
    row_IsQuoted :
        (row : OptionChainRow F) (rows : List (OptionChainRow F)) (rest : List String)
        → row_issues (row ∷ rows) rest ≡ []
        → no_oi row ≡ false
        → IsQuoted row × (row_issues rows rest ≡ [])
    row_IsQuoted row rows rest h z = ground arith

    row_issues-IsQuoted :
        (rows : List (OptionChainRow F)) (rest : List String)
        → row_issues rows rest ≡ []
        → All (λ r. no_oi r ≡ false) rows
        → All IsQuoted rows
    row_issues-IsQuoted [] rest h z = tt
    row_issues-IsQuoted (row ∷ rows) rest h (z, zs) =
        let (quoted, later) = row_IsQuoted row rows rest h z in
        (quoted, row_issues-IsQuoted rows rest later zs)

    row_issues_rest :
        (rows : List (OptionChainRow F)) (rest : List String)
        → row_issues rows rest ≡ []
        → rest ≡ []
    row_issues_rest [] rest h = h
    row_issues_rest (row ∷ rows) rest h = ground (arith, row_issues_rest rows rest)

    -- A chain without issues is fresh, has rows, and quotes in all of them.
    pub chain_issues-IsQuoted :
        (chain : OptionChain F) (now : Timestamp) (max_age : F)
        → chain_issues chain now max_age ≡ []
        → (is_stale chain.timestamp now max_age ≡ false)
          × (chain.rows ≢ [])
          × All IsQuoted chain.rows
    unfolding chain_issues
    chain_issues-IsQuoted chain now max_age h =
        let (fresh, content) = split (is_stale chain.timestamp now max_age) _ _ h in
        let (rows, quoted) = listed chain.rows content in (fresh, rows, quoted)
      where
        split :
            (late : Bool) (text : String) (rest : List String)
            → issue_if late text rest ≡ []
            → (late ≡ false) × (rest ≡ [])
        split late text rest e = ground arith

        listed :
            (rows : List (OptionChainRow F))
            → content_issues rows ≡ []
            → (rows ≢ []) × All IsQuoted rows
        listed [] e = absurd cc
        listed (row ∷ rows) e =
            let kept = map (λ r. r.strike) (select no_oi (row ∷ rows)) in
            let nothing =
              zero_issue_nil fm.int kept
                (row_issues_rest (row ∷ rows) (zero_issue fm.int kept) e) in
            (λ n. cc, row_issues-IsQuoted (row ∷ rows) _ e (select_nil (row ∷ rows) nothing))

    -- A tick without issues but its age is a candle.
    pub tick_issues-IsCandle :
        (tick : InstrumentTick F) (now : Timestamp) (max_age : F)
        → any (λ i. not (starts_with "DATA_AGE" i)) (tick_issues tick now max_age) ≡ false
        → IsCandle tick
    unfolding tick_issues
    tick_issues-IsCandle tick now max_age h =
        ground (arith, price_text (fm.plain tick.close ++ ")"))
