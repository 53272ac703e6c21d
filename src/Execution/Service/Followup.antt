-- ===== src/Execution/Service/Followup.antt =====
-- backend/execution/service.py: what `_update` keeps, all that follows a submission keeps.
use theta_plus.Base.{ℕ, Option, none, some, String, List}
use theta_plus.Base.Dict.{Dict}
use theta_plus.Base.Raises.{Raises, ok, raised, Exc, execution_error, execution_timeout}
use theta_plus.Base.Effects.{Keeps, Keeps-continue}
use theta_plus.Execution.Models.{OrderRecord, BrokerOrderAck, BrokerOrderState}
use theta_plus.Execution.Service.State.{Snapshot, Sent, State, Setting, log_event}
use theta_plus.Execution.Service.Submit.{
  reconciled, ask_by_id, after_timeout, after_error, confirm, confirm_ack, after_ack, after_submit,
}
use theta_plus.Execution.Service.Orders.{reported, apply_broker_state, update}

module _ {F W : Type 0} where
  -- What the orders, their count, the submissions and the journal decide.
  abbrev pub On :
      (Dict (OrderRecord F) → ℕ → List (Sent F) → List (Snapshot F) → Type 0) → State F W → Type 0
  On p s = p s.orders s.risk_state.open_positions s.sent s.journal

module _ {F W : Type 0} (set : Setting F W)
    (p : Dict (OrderRecord F) → ℕ → List (Sent F) → List (Snapshot F) → Type 0)
    (keeps : (o : OrderRecord F) → Keeps (On p) (update set o)) where
  pub Keeps-apply_broker_state :
      (o : OrderRecord F) (state : BrokerOrderState F)
      → Keeps (On p) (apply_broker_state set o state)
  unfolding apply_broker_state log_event
  Keeps-apply_broker_state o state s h =
      Keeps-continue (On p) _ _ (λ _ t q. q) _ (keeps (reported o state) s h)

  Keeps-reconciled :
      (o : OrderRecord F) (r : Raises (Option (BrokerOrderState F)))
      → Keeps (On p) (reconciled set o r)
  unfolding reconciled
  Keeps-reconciled o (ok (some state)) s h = Keeps-apply_broker_state o state s h
  Keeps-reconciled o (ok none) s h = h
  Keeps-reconciled o (raised _) s h = h

  Keeps-ask_by_id : (o : OrderRecord F) → Keeps (On p) (ask_by_id set o)
  unfolding ask_by_id log_event
  Keeps-ask_by_id o s h =
      Keeps-reconciled o (set.get_order_by_correlation o.client_order_id s.world).0 _ h

  Keeps-after_timeout : (o : OrderRecord F) → Keeps (On p) (after_timeout set o)
  unfolding after_timeout
  Keeps-after_timeout o s h =
      Keeps-continue (On p) _ (ask_by_id set) Keeps-ask_by_id _ (keeps _ s h)

  Keeps-after_error : (o : OrderRecord F) → Keeps (On p) (after_error set o)
  unfolding after_error log_event
  Keeps-after_error o s h = Keeps-continue (On p) _ _ (λ o' t q. q) _ (keeps _ s h)

  Keeps-confirm : (o : OrderRecord F) (id : String) → Keeps (On p) (confirm set o id)
  unfolding confirm
  Keeps-confirm o id s h =
      Keeps-continue (On p) (set.get_order id s.world).0 _
        (λ state. Keeps-apply_broker_state o state) _ h

  Keeps-confirm_ack :
      (ack : BrokerOrderAck) (o : OrderRecord F) → Keeps (On p) (confirm_ack set ack o)
  unfolding confirm_ack log_event
  Keeps-confirm_ack ack o s h = Keeps-confirm o ack.broker_order_id _ h

  Keeps-after_ack : (o : OrderRecord F) (ack : BrokerOrderAck) → Keeps (On p) (after_ack set o ack)
  unfolding after_ack
  Keeps-after_ack o ack s h =
      Keeps-continue (On p) _ (confirm_ack set ack) (Keeps-confirm_ack ack) _ (keeps _ s h)

  pub Keeps-after_submit :
      (o : OrderRecord F) (r : Raises BrokerOrderAck) → Keeps (On p) (after_submit set o r)
  unfolding after_submit
  Keeps-after_submit o (ok ack) s h = Keeps-after_ack o ack s h
  Keeps-after_submit o (raised execution_timeout) s h = Keeps-after_timeout o s h
  Keeps-after_submit o (raised execution_error) s h = Keeps-after_error o s h
  Keeps-after_submit o (raised Exc.type_error) s h = h
  Keeps-after_submit o (raised Exc.overflow_error) s h = h
  Keeps-after_submit o (raised Exc.value_error) s h = h
  Keeps-after_submit o (raised Exc.illegal_transition) s h = h
  Keeps-after_submit o (raised Exc.validation_error) s h = h
  Keeps-after_submit o (raised Exc.journal_error) s h = h
  Keeps-after_submit o (raised Exc.other_error) s h = h
