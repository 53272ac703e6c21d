-- ===== src/Execution/Service/Reported.antt =====
-- backend/execution/service.py: what `_apply_broker_state` makes of a broker's report.
use theta_plus.Base.{◌≡◌, true, ◌⊎◌, arith}
use theta_plus.Base.Int.{pos, ltb_ℤ, ◌≤ℤ◌}
use theta_plus.Execution.Models.{filled, OrderRecord, BrokerOrderState}
use theta_plus.Execution.Service.Orders.{exposed, reported}

module _ {F : Type 0} (o : OrderRecord F) (state : BrokerOrderState F) where
  -- A report leaves the fills no lower than they were, and no lower than it says.
  pub reported-fills :
      (o.filled_quantity ≤ℤ (reported o state).filled_quantity)
      × (state.filled_quantity ≤ℤ (reported o state).filled_quantity)
  unfolding reported
  reported-fills = ground arith

  -- After a report, an order counts as filled only if its whole quantity is filled or nothing is.
  pub reported-full :
      (reported o state).status ≡ filled
      → (o.requested_quantity ≤ℤ (reported o state).filled_quantity)
        ⊎ ((reported o state).filled_quantity ≤ℤ pos 0)
  unfolding reported
  reported-full h = ground arith

  -- A fill keeps its slot: no later report releases it.
  pub reported-exposed : ltb_ℤ (pos 0) o.filled_quantity ≡ true → exposed (reported o state) ≡ true
  unfolding reported exposed
  reported-exposed h = ground arith
