-- ===== src/Features/Chain.antt =====
-- backend/engines/atm_engine.py and pcr_engine.py: the strikes around the spot and the put/call ratio of
-- an option chain.
use Prim.Native.String.{◌++◌}
use theta_plus.Base.{
  ℕ, zero, suc, ◌+◌, ◌*◌, ◌-◌, Bool, true, false, Option, none, some, String, List, [], ◌∷◌,
  if◌then◌else◌, ltb, length, drop, select, map, ◌==◌,
}
use theta_plus.Base.Int.{ℤ, pos, ◌+ℤ◌, ◌-ℤ◌, ◌*ℤ◌, sub_ℕ, ltb_ℤ, leb_ℤ, eq_ℤ, magnitude}
use theta_plus.Base.Float.{Float, Format}
use theta_plus.Base.Raises.{Raises, ok, raised, value_error, ◌>>=◌}
use theta_plus.Clock.{Timestamp}
use theta_plus.Market.{OptionChainRow, OptionChain, PcrFeatures, TrendState}

module _ {F : Type 0} ⦃fl : Float F⦄ where
  unfoldable pub calculate_atm : F → ℤ → Raises ℤ
  calculate_atm spot interval = if leb_ℤ interval (pos 0) then raised value_error else do
    steps ← fl.floor (fl.add (fl.div spot (fl.of_int interval)) (fl.int_div (pos 1) (pos 2)))
    ok (steps *ℤ interval)

-- `n` strikes from the `k`-th below or above the ATM on
abbrev strikes_from : ℤ → ℤ → ℤ → ℕ → List ℤ
strikes_from atm interval k zero = []
strikes_from atm interval k (suc n) =
    (atm +ℤ k *ℤ interval) ∷ strikes_from atm interval (k +ℤ pos 1) n

-- `select_strikes`: the configured range is not negative.
unfoldable pub select_strikes : ℤ → ℤ → ℕ → List ℤ
select_strikes atm interval atm_range =
    strikes_from atm interval (sub_ℕ 0 atm_range) (2 * atm_range + 1)

-- `sum(...)` of integers
abbrev pub sum_ℤ : List ℤ → ℤ
sum_ℤ [] = pos 0
sum_ℤ (n ∷ ns) = n +ℤ sum_ℤ ns

module _ {F : Type 0} where
  abbrev pub put_oi_of : List (OptionChainRow F) → ℤ
  put_oi_of rows = sum_ℤ (map (λ r. r.pe.oi) rows)

  abbrev pub call_oi_of : List (OptionChainRow F) → ℤ
  call_oi_of rows = sum_ℤ (map (λ r. r.ce.oi) rows)

  -- The rows within the range of the ATM.
  unfoldable pub near : ℤ → ℤ → List (OptionChainRow F) → List (OptionChainRow F)
  near atm band rows = select (λ r. leb_ℤ (pos (magnitude (r.strike -ℤ atm))) band) rows

module _ {F : Type 0} ⦃fl : Float F⦄ where
  unfoldable pub ratio : ℤ → ℤ → Option F
  ratio numerator denominator =
      if eq_ℤ denominator (pos 0) then none else some (fl.round4 (fl.int_div numerator denominator))

  module _ ⦃fm : Format F⦄ where
    -- The quality, `valid` and the reason of the ratios.
    abbrev pcr_quality : ℤ → ℤ → ℤ → ℤ → Option F → ℤ → ℤ → String × Bool × String
    pcr_quality total_put total_call atm_put atm_call atm_pcr selected missing =
        if eq_ℤ total_call (pos 0)
        then (
          "INVALID: total call OI is zero (put="
              ++ fm.int total_put
              ++ ", call="
              ++ fm.int total_call
              ++ ")",
          false,
          "PCR undefined: zero total call OI",
        )
        else (elim atm_pcr [
          | none ↦ (
            "INVALID: ATM-range call OI is zero (put="
                ++ fm.int atm_put
                ++ ", call="
                ++ fm.int atm_call
                ++ ")",
            false,
            "ATM-range PCR undefined: zero call OI in ATM window",
          )
          | some _ ↦
              if ltb_ℤ (pos 0) missing
              then (
                "INCOMPLETE: "
                    ++ fm.int missing
                    ++ " of "
                    ++ fm.int selected
                    ++ " ATM-range strikes missing",
                true,
                "PCR computed from available strikes; ATM window incomplete",
              )
              else ("OK", true, "")
        ])

    abbrev pcr_of_rows : ℤ → ℤ → ℕ → List (OptionChainRow F) → PcrFeatures F
    pcr_of_rows atm interval atm_range rows =
        let band = pos atm_range *ℤ interval in
        let atm_rows = near atm band rows in
        let atm_pcr = ratio (put_oi_of atm_rows) (call_oi_of atm_rows) in
        let (quality, valid, reason) =
          pcr_quality (put_oi_of rows) (call_oi_of rows) (put_oi_of atm_rows) (call_oi_of atm_rows)
            atm_pcr (pos (2 * atm_range + 1)) (sub_ℕ (2 * atm_range + 1) (length atm_rows)) in
        record {
          total_put_oi = put_oi_of rows;
          total_call_oi = call_oi_of rows;
          total_pcr = ratio (put_oi_of rows) (call_oi_of rows);
          atm_put_oi = put_oi_of atm_rows;
          atm_call_oi = call_oi_of atm_rows;
          atm_pcr = atm_pcr;
          pcr_change = none;
          pcr_trend = TrendState.insufficient_data;
          quality = quality;
          valid = valid;
          reason = reason;
        }

    abbrev pcr_from : ℤ → ℤ → ℕ → List (OptionChainRow F) → PcrFeatures F
    pcr_from atm interval atm_range [] = record {
      total_put_oi = pos 0;
      total_call_oi = pos 0;
      total_pcr = none;
      atm_put_oi = pos 0;
      atm_call_oi = pos 0;
      atm_pcr = none;
      pcr_change = none;
      pcr_trend = TrendState.insufficient_data;
      quality = "INVALID: empty option chain";
      valid = false;
      reason = "option chain has no rows; PCR not computable";
    }
    pcr_from atm interval atm_range (row ∷ rows) = pcr_of_rows atm interval atm_range (row ∷ rows)

    unfoldable pub compute_pcr : OptionChain F → ℤ → ℕ → PcrFeatures F
    compute_pcr chain atm_strike atm_range =
        pcr_from atm_strike chain.strike_interval atm_range chain.rows

  unfoldable pub pcr_change : Option F → Option F → Option F
  pcr_change (some now) (some before) = some (fl.round4 (fl.sub now before))
  pcr_change _ _ = none

  abbrev known : List (Timestamp × Option F) → List F
  known [] = []
  known ((_, none) ∷ history) = known history
  known ((_, some p) ∷ history) = p ∷ known history

  abbrev final : F → List F → F
  final p [] = p
  final p (q ∷ qs) = final q qs

  -- The trend over a window, which is never empty.
  abbrev trend_over : F → List F → TrendState
  trend_over flat_band [] = TrendState.insufficient_data
  trend_over flat_band (p ∷ ps) =
      let delta = fl.sub (final p ps) p in
      if fl.lt flat_band delta
      then TrendState.up
      else (if fl.lt delta (fl.neg flat_band) then TrendState.down else TrendState.flat)

  unfoldable pub pcr_trend_from_history : List (Timestamp × Option F) → ℕ → F → TrendState
  pcr_trend_from_history history lookback flat_band =
      let values = known history in
      let needed = (if ltb lookback 2 then 2 else lookback) in
      if ltb (length values) needed
      then TrendState.insufficient_data
      else trend_over flat_band
          (if lookback == 0 then values else drop (length values - lookback) values)
