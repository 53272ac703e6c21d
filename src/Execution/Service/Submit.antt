-- ===== src/Execution/Service/Submit.antt =====
-- backend/execution/service.py: `_submit`, which reserves a place for an order, writes it down, hands
-- it to the adapter and follows up on every kind of answer.
use theta_plus.Base.{◌+◌, true, false, Option, none, some, String, ◌∷◌, or_else}
use theta_plus.Base.Int.{pos}
use theta_plus.Base.Dict.{insert}
use theta_plus.Base.Raises.{Raises, ok, raised, execution_error, execution_timeout}
use theta_plus.Base.Effects.{M, pure, raise, modify, ◌>>=◌, ◌>>◌, attempt}
use theta_plus.Execution.Models.{
  requested, submitted, rejected, unknown, OrderRequest, OrderRecord, BrokerOrderAck,
  BrokerOrderState, broker_status_map,
}
use theta_plus.Execution.Service.State.{State, Setting, outside, log_event}
use theta_plus.Execution.Service.Orders.{persist, refresh_exposure, update, apply_broker_state}

module _ {F : Type 0} where
  unfoldable pub new_record : OrderRequest F → OrderRecord F
  new_record order = record {
    client_order_id = order.client_order_id;
    signal_id = order.signal_id;
    broker_order_id = none;
    broker_status = none;
    broker_confirmed = false;
    status = requested;
    security_id = order.security_id;
    exchange_segment = order.exchange_segment;
    transaction_type = order.transaction_type;
    product_type = order.product_type;
    order_type = order.order_type;
    requested_quantity = pos order.quantity;
    filled_quantity = pos 0;
    remaining_quantity = pos order.quantity;
    requested_price = order.price;
    average_fill_price = none;
    error_code = "";
  }

  abbrev pub kept : OrderRecord F → Raises (OrderRecord F) → OrderRecord F
  kept o (ok o') = o'
  kept o (raised _) = o

module _ {F W : Type 0} (set : Setting F W) where
  -- The slot and the key are taken, and written, before the broker is called.
  unfoldable pub reserve : OrderRecord F → M (State F W) (Unit {0})
  reserve o = do
    modify (λ s. refresh_exposure set (record s { orders = insert o.client_order_id o s.orders }))
    modify (λ s.
        let risk = s.risk_state in
        record s { risk_state = record risk { trades_today = risk.trades_today + 1 } })
    persist set

  -- `adapter.submit_order`
  unfoldable pub send : OrderRequest F → M (State F W) BrokerOrderAck
  send order = do
    modify (λ s. record s { sent = record { order = order; journal = s.journal } ∷ s.sent })
    outside (set.submit_order order)

  unfoldable pub reconciled :
      OrderRecord F → Raises (Option (BrokerOrderState F)) → M (State F W) (OrderRecord F)
  reconciled o (ok (some state)) = apply_broker_state set o state
  reconciled o (ok none) = pure o
  reconciled o (raised _) = pure o

  unfoldable pub ask_by_id : OrderRecord F → M (State F W) (OrderRecord F)
  ask_by_id o = do
    log_event "ORDER_UNKNOWN" o.client_order_id none
    answer ← attempt (outside (set.get_order_by_correlation o.client_order_id))
    reconciled o answer

  -- After a timeout the outcome is unknown: ask by our own id, never send again.
  unfoldable pub after_timeout : OrderRecord F → M (State F W) (OrderRecord F)
  after_timeout o = do
    o' ← update set (record o { status = unknown; error_code = "TIMEOUT" })
    ask_by_id o'

  unfoldable pub after_error : OrderRecord F → M (State F W) (OrderRecord F)
  after_error o = do
    o' ←
        update set
          (record o { status = rejected; broker_confirmed = true; error_code = "ADAPTER_ERROR" })
    log_event "ORDER_REJECTED" o'.client_order_id none
    pure o'

  unfoldable pub confirm : OrderRecord F → String → M (State F W) (OrderRecord F)
  confirm o broker_order_id = do
    state ← outside (set.get_order broker_order_id)
    apply_broker_state set o state

  -- Whatever is raised while the state is confirmed is dropped.
  unfoldable pub confirm_ack : BrokerOrderAck → OrderRecord F → M (State F W) (OrderRecord F)
  confirm_ack ack o = do
    log_event "ORDER_SUBMITTED" o.client_order_id none
    confirmed ← attempt (confirm o ack.broker_order_id)
    pure (kept o confirmed)

  unfoldable pub after_ack : OrderRecord F → BrokerOrderAck → M (State F W) (OrderRecord F)
  after_ack o ack = do
    o' ← update set (record o {
      status = or_else (broker_status_map ack.broker_status) submitted;
      broker_order_id = some ack.broker_order_id;
      broker_status = some ack.broker_status;
    })
    confirm_ack ack o'

  unfoldable pub after_submit :
      OrderRecord F → Raises BrokerOrderAck → M (State F W) (OrderRecord F)
  after_submit o (ok ack) = after_ack o ack
  after_submit o (raised execution_timeout) = after_timeout o
  after_submit o (raised execution_error) = after_error o
  after_submit o (raised e) = raise e

  unfoldable pub dispatch : OrderRequest F → OrderRecord F → M (State F W) (OrderRecord F)
  dispatch order o = do answer ← attempt (send order); after_submit o answer

  -- `_submit`
  unfoldable pub submit : OrderRequest F → M (State F W) (OrderRecord F)
  submit order = do let o = new_record order; reserve o; dispatch order o
