-- ===== src/Replay/Observation.antt =====
-- backend/replay/outcome_engine.py: one future observation of an option leg, which the replay and
-- the paper book share, and the row of a chain at a strike.
use theta_plus.Base.{Option, List, or_else, find_first}
use theta_plus.Base.Int.{ℤ, eq_ℤ}
use theta_plus.Clock.{Timestamp}
use theta_plus.Market.{OptionQuote, OptionChainRow}
use theta_plus.Engine.Models.{Side, ce, pe}

pub record OptionObservation (F : Type 0) : Type 0 where
  pub timestamp : Timestamp
  pub ltp : F
  pub high : Option F
  pub low : Option F

module _ {F : Type 0} where
  abbrev pub hi : OptionObservation F → F
  hi obs = or_else obs.high obs.ltp

  abbrev pub lo : OptionObservation F → F
  lo obs = or_else obs.low obs.ltp

  -- `next((r for r in rows if r.strike == strike), None)`
  abbrev pub row_at : ℤ → List (OptionChainRow F) → Option (OptionChainRow F)
  row_at strike = find_first λ row. eq_ℤ row.strike strike

  -- `row.ce if side == "CE" else row.pe`
  abbrev pub leg : Side → OptionChainRow F → OptionQuote F
  leg ce row = row.ce
  leg pe row = row.pe
