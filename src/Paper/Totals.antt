-- ===== src/Paper/Totals.antt =====
-- backend/paper/paper_engine.py: the counts of the summary add up.
use theta_plus.Base.{◌+◌, ◌≡◌, List, [], ◌∷◌, arith, length, select}
use theta_plus.Base.Float.{Float}
use theta_plus.Config.{AppConfig}
use theta_plus.Paper.Models.{
  target, stoploss, invalidated, expired, no_data, ambiguous, PaperPosition, is_open, is_closed,
}
use theta_plus.Paper.Engine.{PaperBook, trades}
use theta_plus.Paper.Summary.{count, summary}

module _ {F : Type 0} where
  closed_count :
      (ps : List (PaperPosition F))
      → length (select (λ p. is_closed p.state) ps)
        ≡ count target ps
          + count stoploss ps
          + count invalidated ps
          + count expired ps
          + count ambiguous ps
  closed_count [] = omega arith
  closed_count (p ∷ ps) = ground (arith, closed_count ps)

  all_count :
      (ps : List (PaperPosition F))
      → length ps
        ≡ length (select is_open ps)
          + length (select (λ p. is_closed p.state) ps)
          + count no_data ps
  all_count [] = omega arith
  all_count (p ∷ ps) = ground (arith, all_count ps)

module _ {F : Type 0} ⦃fl : Float F⦄ (config : AppConfig F) (book : PaperBook F) where
  -- In the summary of any book, every position is counted once: as open, as a trade that ended in one
  -- of the five ways, or as one without data. The trade log holds exactly the ended ones.
  pub summary-counts :
      let s = summary config book in
      (s.total_positions
        ≡ s.open_positions + s.target + s.stoploss + s.invalidated + s.expired + s.ambiguous
          + s.no_data)
      × (length (trades book) ≡ s.target + s.stoploss + s.invalidated + s.expired + s.ambiguous)
  unfolding summary
  summary-counts = (
    omega (arith, all_count book.positions, closed_count book.positions),
    closed_count book.positions,
  )
