-- ===== src/Execution/Risk.antt =====
-- backend/execution/risk_engine.py: every limit is a value of the configuration.
pub mod Laws
use theta_plus.Base.{
  ℕ, Bool, true, false, not, ◌&&◌, ◌||◌, Option, none, some, String, List, [], ◌∷◌, ◌++◌,
  if◌then◌else◌, ltb, leb,
}
use theta_plus.Base.Float.{Float, f_lt, f_le, f_min}
use theta_plus.Config.{AppConfig}
use theta_plus.Execution.Models.{
  Reason, approved, risk_disabled, max_trades, max_positions, quantity_limit, max_daily_loss,
  price_invalid, slippage, Checks, RiskDecision,
}

pub record RiskState (F : Type 0) : Type 0 where
  pub trades_today : ℕ
  pub open_positions : ℕ
  pub realized_pnl_today : F
  pub locked : Bool

abbrev refuse : Reason → Checks → RiskDecision
refuse reason checks = record { allowed = false; reason = reason; checks = checks }

-- `checks.append((name, ok))`, and the early return where the check fails.
abbrev demand : String → Bool → Reason → Checks → (Checks → RiskDecision) → RiskDecision
demand name passed reason checks rest =
    if passed
    then rest (checks ++ (name, true) ∷ [])
    else refuse reason (checks ++ (name, false) ∷ [])

module _ {F : Type 0} ⦃fl : Float F⦄ where
  -- `_finite` of a value that is not None
  unfoldable pub finite : F → Bool
  finite v = fl.eq v v && not (fl.eq v fl.infinity || fl.eq v fl.minus_infinity)

  -- `_finite(price) and price > 0`
  unfoldable pub price_valid : Option F → Bool
  unfolding finite
  price_valid none = false
  price_valid (some v) = finite v && f_lt fl.nought v

  -- `-min(realized_pnl_today, 0.0)`
  unfoldable pub loss : F → F
  loss pnl = fl.neg (f_min pnl fl.nought)

  -- The distance of the two prices; the market's is present once `price_valid` holds.
  abbrev pub distance : Option F → F → F
  distance none reference = fl.nought
  distance (some price) reference = fl.abs (fl.sub price reference)

  -- The reference price, where one is given.
  check_reference : AppConfig F → Option F → Option F → Checks → RiskDecision
  check_reference cfg market none checks = record {
    allowed = true;
    reason = approved;
    checks = checks;
  }
  check_reference cfg market (some reference) checks =
      if not (finite reference) || f_le reference fl.nought
      then refuse price_invalid (checks ++ ("price_valid_reference", false) ∷ [])
      else demand "max_slippage_points"
          (f_le (distance market reference) cfg.risk_max_slippage_points) slippage checks
          (λ checks'. record { allowed = true; reason = approved; checks = checks' })

  unfoldable pub evaluate : AppConfig F → RiskState F → ℕ → Option F → Option F → RiskDecision
  unfolding check_reference
  evaluate cfg state quantity reference_price market_price =
      demand "risk_enabled" cfg.risk_enabled risk_disabled [] (λ c1.
        demand "max_trades_per_day" (ltb state.trades_today cfg.risk_max_trades_per_day) max_trades
          c1
          (λ c2.
            demand "max_open_positions" (ltb state.open_positions cfg.risk_max_open_positions)
              max_positions c2
              (λ c3.
                demand "max_quantity" (ltb 0 quantity && leb quantity cfg.risk_max_quantity)
                  quantity_limit c3
                  (λ c4.
                    demand "max_daily_loss"
                      (not (
                        state.locked
                        || f_lt cfg.risk_max_daily_loss (loss state.realized_pnl_today)))
                      max_daily_loss c4
                      (λ c5.
                        demand "price_valid" (price_valid market_price) price_invalid c5
                          (λ c6. check_reference cfg market_price reference_price c6))))))
