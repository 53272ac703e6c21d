-- ===== src/Execution/Service/Orders.antt =====
-- backend/execution/service.py: exposure, persistence and the lifecycle of an order.
use theta_plus.Base.{
  ℕ, suc, Bool, true, false, not, ◌&&◌, ◌||◌, Option, none, some, String, [], ◌∷◌, if◌then◌else◌,
  or_else, truthy,
}
use theta_plus.Base.Int.{pos, ltb_ℤ, eq_ℤ, max_ℤ, ◌-ℤ◌}
use theta_plus.Base.Dict.{Dict, lookup, insert}
use theta_plus.Base.Raises.{Raises, ok, raised}
use theta_plus.Base.Effects.{M, pure, raise, modify, gets, ◌>>=◌, ◌>>◌, attempt}
use theta_plus.Execution.Models.{
  OrderStatus, partially_filled, filled, rejected, cancelled, unknown, OrderRecord,
  BrokerOrderState, broker_status_map,
}
use theta_plus.Execution.Reconciliation.{mark_pending}
use theta_plus.Execution.Service.State.{Snapshot, State, Setting, outside, log_event}

-- `status not in (ORDER_REJECTED, ORDER_CANCELLED)`
abbrev pub is_standing : OrderStatus → Bool
is_standing rejected = false
is_standing cancelled = false
is_standing _ = true

abbrev is_filled : OrderStatus → Bool
is_filled filled = true
is_filled _ = false

-- `a or b` for texts that may be missing
abbrev text_or : String → Option String → Option String
text_or String.[] b = b
text_or (String.◌∷◌ c a) b = some (String.◌∷◌ c a)

module _ {F : Type 0} where
  -- The order holds a slot: something is filled, or it may still be.
  unfoldable pub exposed : OrderRecord F → Bool
  exposed o = ltb_ℤ (pos 0) o.filled_quantity || not o.broker_confirmed || is_standing o.status

  unfoldable pub exposure : Dict (OrderRecord F) → ℕ
  exposure [] = 0
  exposure ((_, o) ∷ d) = let rest = exposure d in if exposed o then suc rest else rest

  -- The record after the broker's report: fills never shrink, and a partial fill is not full.
  unfoldable pub reported : OrderRecord F → BrokerOrderState F → OrderRecord F
  reported o state =
      let status = or_else (broker_status_map state.broker_status) unknown in
      let fills = max_ℤ o.filled_quantity state.filled_quantity in
      record o {
        status =
            if is_filled status && ltb_ℤ fills o.requested_quantity && ltb_ℤ (pos 0) fills
            then partially_filled
            else status;
        broker_confirmed = true;
        broker_order_id = text_or state.broker_order_id o.broker_order_id;
        broker_status = some state.broker_status;
        filled_quantity = fills;
        remaining_quantity =
            if eq_ℤ state.remaining_quantity (pos 0)
            then max_ℤ (o.requested_quantity -ℤ fills) (pos 0)
            else state.remaining_quantity;
        average_fill_price = state.average_traded_price;
        error_code = state.error_code;
      }

module _ {F W : Type 0} (set : Setting F W) where
  abbrev pub snapshot : State F W → Snapshot F
  snapshot s = record {
    schema = 1;
    namespace = set.namespace;
    orders = s.orders;
    risk = s.risk_state;
    risk_day = s.risk_day;
    kill_switch = s.kill_switch;
  }

  -- A failed write engages the kill switch, blocks, and is raised again.
  unfoldable pub written : Snapshot F → Raises (Unit {0}) → M (State F W) (Unit {0})
  written snap (ok _) = modify (λ s. record s { journal = snap ∷ s.journal })
  written snap (raised e) =
      modify (λ s. record s { kill_switch = true; report = mark_pending s.report }) >> raise e

  -- `_persist`
  unfoldable pub persist : M (State F W) (Unit {0})
  persist = do
    snap ← gets snapshot
    result ← attempt (outside (set.write snap))
    written snap result

  unfoldable pub refresh_exposure : State F W → State F W
  refresh_exposure s =
      let risk = s.risk_state in
      record s { risk_state = record risk { open_positions = exposure s.orders } }

  -- `_update`, with the changed record.
  unfoldable pub update : OrderRecord F → M (State F W) (OrderRecord F)
  update o = do
    modify (λ s. refresh_exposure (record s { orders = insert o.client_order_id o s.orders }))
    persist
    pure o

  -- `_apply_broker_state`
  unfoldable pub apply_broker_state :
      OrderRecord F → BrokerOrderState F → M (State F W) (OrderRecord F)
  apply_broker_state o state = do
    o' ← update (reported o state)
    log_event "ORDER_STATE_CHANGE" o'.client_order_id none
    pure o'

  -- The broker is asked by its own id, or by ours before it has given one.
  unfoldable pub ask_broker : OrderRecord F → String → M (State F W) (Option (BrokerOrderState F))
  ask_broker o coid =
      let id = or_else o.broker_order_id "" in
      if truthy id
      then (outside (set.get_order id) >>= λ state. pure (some state))
      else outside (set.get_order_by_correlation coid)

  unfoldable pub answered :
      String
      → OrderRecord F
      → Raises (Option (BrokerOrderState F))
      → M (State F W) (Option (OrderRecord F))
  answered coid o (raised e) = log_event "ORDER_RECONCILE_FAILED" coid none >> pure (some o)
  answered coid o (ok none) = pure (some o)
  answered coid o (ok (some state)) = do o' ← apply_broker_state o state; pure (some o')

  unfoldable pub refresh_found :
      String → Option (OrderRecord F) → M (State F W) (Option (OrderRecord F))
  refresh_found coid none = pure none
  refresh_found coid (some o) = do answer ← attempt (ask_broker o coid); answered coid o answer

  unfoldable pub refresh_order : String → M (State F W) (Option (OrderRecord F))
  refresh_order coid = do found ← gets (λ s. lookup coid s.orders); refresh_found coid found
