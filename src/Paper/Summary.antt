-- ===== src/Paper/Summary.antt =====
-- backend/paper/paper_engine.py: the totals of the book.
use theta_plus.Base.{
  ℕ, Bool, true, false, ◌&&◌, ◌||◌, Option, some, List, [], ◌∷◌, if◌then◌else◌, length, or_else,
  select,
}
use theta_plus.Base.Float.{Float}
use theta_plus.Config.{AppConfig, Mode, paper}
use theta_plus.Paper.Models.{
  PaperState, target, stoploss, invalidated, expired, no_data, ambiguous, PaperPosition,
  PaperSummary, same_state,
}
use theta_plus.Paper.Engine.{PaperBook, open_positions, trades, current, origin_label}

-- `sum(1 for p in positions if p.state == state)`
abbrev pub count : {F : Type 0} → PaperState → List (PaperPosition F) → ℕ
count state ps = length (select (λ p. same_state p.state state) ps)

-- `self.config.system_mode == "PAPER"`
abbrev is_paper : Mode → Bool
is_paper paper = true
is_paper _ = false

module _ {F : Type 0} ⦃fl : Float F⦄ where
  -- `sum(field(p) or 0.0 for p in positions)`, from the left as Python adds
  abbrev sum_from : F → (PaperPosition F → Option F) → List (PaperPosition F) → F
  sum_from total field [] = total
  sum_from total field (p ∷ ps) = sum_from (fl.add total (or_else (field p) fl.nought)) field ps

  abbrev pub total : (PaperPosition F → Option F) → List (PaperPosition F) → F
  total field ps = fl.round2 (sum_from fl.nought field ps)

  unfoldable pub summary : AppConfig F → PaperBook F → PaperSummary F
  summary config book = record {
    mode = config.system_mode;
    paper_trading_enabled = config.paper_trading_enabled || is_paper config.system_mode;
    data_origin = book.data_origin;
    data_origin_label = origin_label book.data_origin;
    total_positions = length book.positions;
    open_positions = length (open_positions book);
    target = count target book.positions;
    stoploss = count stoploss book.positions;
    invalidated = count invalidated book.positions;
    expired = count expired book.positions;
    ambiguous = count ambiguous book.positions;
    no_data = count no_data book.positions;
    gross_points = total (λ p. p.gross_points) (trades book);
    gross_pnl = total (λ p. p.gross_pnl) (trades book);
    costs = total (λ p. some p.costs) (trades book);
    net_pnl = total (λ p. p.net_pnl) (trades book);
    quantity = config.paper_quantity;
    target_points = config.target_points;
    stoploss_points = config.stoploss_points;
    max_open_positions = config.max_open_paper_positions;
    cost_note =
        (if fl.eq config.paper_costs_per_trade fl.nought
            && fl.eq config.paper_slippage_points fl.nought
          then "HYPOTHETICAL: assumed slippage and costs are zero, so P&L is gross of real charges."
          else "HYPOTHETICAL: slippage/costs are assumed configuration values, not broker charges.");
    open_position = current book;
  }
