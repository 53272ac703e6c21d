-- ===== src/Execution/Risk/Laws.antt =====
-- What an approval of the risk engine (backend/execution/risk_engine.py) means.
use theta_plus.Base.{ℕ, ◌≤◌, ◌<◌, ◌≡◌, ◌↔◌, true, false, Option, none, some, arith, All}
use theta_plus.Base.Float.{Float, f_lt, f_le}
use theta_plus.Config.{AppConfig}
use theta_plus.Execution.Models.{approved}
use theta_plus.Execution.Risk.{RiskState, finite, price_valid, loss, distance, evaluate}

module _ {F : Type 0} ⦃fl : Float F⦄ (cfg : AppConfig F) (state : RiskState F) (quantity : ℕ)
    (reference_price market_price : Option F) where
  -- A reference price, where there is one, is finite, positive and near the market price.
  abbrev pub IsNear : Option F → Type 0
  IsNear none = Unit
  IsNear (some reference) =
      (finite reference ≡ true)
      × (f_le reference fl.nought ≡ false)
      × (f_le (distance market_price reference) cfg.risk_max_slippage_points ≡ true)

  pub record WithinLimits : Type 0 where
    pub enabled : cfg.risk_enabled ≡ true
    pub trades : state.trades_today < cfg.risk_max_trades_per_day
    pub positions : state.open_positions < cfg.risk_max_open_positions
    pub at_least_one : 0 < quantity
    pub quantity_capped : quantity ≤ cfg.risk_max_quantity
    pub unlocked : state.locked ≡ false
    pub loss_capped : f_lt cfg.risk_max_daily_loss (loss state.realized_pnl_today) ≡ false
    pub price : price_valid market_price ≡ true
    pub near : IsNear reference_price

  pub WithinLimits_of_allowed :
      (evaluate cfg state quantity reference_price market_price).allowed ≡ true → WithinLimits
  unfolding evaluate
  WithinLimits_of_allowed h = ground arith

  pub allowed_of_WithinLimits :
      WithinLimits → (evaluate cfg state quantity reference_price market_price).allowed ≡ true
  unfolding evaluate
  allowed_of_WithinLimits w = ground arith

  -- The risk engine approves exactly the orders within every configured limit.
  pub evaluate_iff :
      ((evaluate cfg state quantity reference_price market_price).allowed ≡ true) ↔ WithinLimits
  evaluate_iff = (WithinLimits_of_allowed, allowed_of_WithinLimits)

  -- A refusal never carries the reason of an approval.
  pub evaluate-approved :
      (evaluate cfg state quantity reference_price market_price).reason ≡ approved
      → (evaluate cfg state quantity reference_price market_price).allowed ≡ true
  unfolding evaluate
  evaluate-approved h = ground arith

  -- An approval has passed all of its checks.
  pub evaluate-checks :
      (evaluate cfg state quantity reference_price market_price).allowed ≡ true
      → All (λ c. c.1 ≡ true) (evaluate cfg state quantity reference_price market_price).checks
  unfolding evaluate
  evaluate-checks h = ground arith
