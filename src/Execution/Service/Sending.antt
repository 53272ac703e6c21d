-- ===== src/Execution/Service/Sending.antt =====
-- backend/execution/service.py: `attempt_entry` does send what the gate permits.
use theta_plus.Base.{ℕ, ◌+◌, ◌≡◌, refl, sym, Option, none, String, List, ◌∷◌, if_cases}
use mathlib.Core.Path.{subst}
use theta_plus.Base.Float.{Float, Format}
use theta_plus.Base.Dict.{Dict, insert}
use theta_plus.Base.Raises.{Raises, ok, raised, ok_injective}
use theta_plus.Base.Effects.{M, pure, continue, Keeps, Keeps-continue}
use theta_plus.Clock.{Timestamp, date_of}
use theta_plus.Market.{MarketFeatures}
use theta_plus.Engine.Models.{SignalDecision}
use theta_plus.Execution.Models.{OrderRequest, OrderRecord, ExecutionDecision}
use theta_plus.Execution.Gate.{Request, can_execute_order}
use theta_plus.Execution.Gate.Laws.{Permitted, can_execute_order_iff}
use theta_plus.Execution.Service.State.{Snapshot, Sent, State, Setting, log_event}
use theta_plus.Execution.Service.Orders.{written, snapshot, persist, refresh_exposure, update}
use theta_plus.Execution.Service.Submit.{new_record, reserve, send, dispatch, submit}
use theta_plus.Execution.Service.Entry.{
  roll_day, gate_request, order_request, place, act, attempt_entry,
}
use theta_plus.Execution.Service.Followup.{On, Keeps-after_submit}
use theta_plus.Execution.Service.Attempt.{roll_day-sent}

module _ {F W : Type 0} (set : Setting F W) (xs : List (Sent F)) where
  abbrev Fixed : Dict (OrderRecord F) → ℕ → List (Sent F) → List (Snapshot F) → Type 0
  Fixed orders count sent journal = sent ≡ xs

  Keeps-written :
      (snap : Snapshot F) (r : Raises (Unit {0})) → Keeps (On Fixed) (written set snap r)
  unfolding written
  Keeps-written snap (ok _) s h = h
  Keeps-written snap (raised e) s h = h

  -- An update of an order sends nothing.
  Keeps-update : (o : OrderRecord F) → Keeps (On Fixed) (update set o)
  unfolding update refresh_exposure persist
  Keeps-update o s h =
      Keeps-continue (On Fixed) _ _ (λ _ t q. q) _ (Keeps-written _ (set.write _ s.world).0 _ h)

module _ {F W : Type 0} (set : Setting F W) where
  dispatch-sent :
      (order : OrderRequest F) (o : OrderRecord F) (s : State F W)
      → (dispatch set order o s).1.sent ≡ record { order = order; journal = s.journal } ∷ s.sent
  unfolding dispatch send
  dispatch-sent order o s =
      let xs : List (Sent F) = record { order = order; journal = s.journal } ∷ s.sent in
      Keeps-after_submit set (Fixed set xs) (Keeps-update set xs) o
        (set.submit_order order s.world).0 _ refl

  abbrev pub IsSent : OrderRequest F → List (Sent F) → State F W → Type 0
  IsSent order before t =
      (journal : List (Snapshot F)) × (t.sent
        ≡ record { order = order; journal = journal } ∷ before)

  reserved-IsSent :
      (order : OrderRequest F) (o : OrderRecord F) (snap : Snapshot F) (r : Raises (Unit {0}))
      (s : State F W)
      → r ≡ ok tt
      → IsSent order s.sent
          (continue (written set snap r s).0 (λ _. dispatch set order o) (written set snap r s).1).1
  unfolding written
  reserved-IsSent order o snap (ok _) s e = (snap ∷ s.journal, dispatch-sent order o _)
  reserved-IsSent order o snap (raised x) s e = cc

  -- The state that `_submit` writes down before it calls the adapter: the order has its record and its
  -- slot, and counts as a trade of the day.
  abbrev pub reserved : OrderRequest F → State F W → State F W
  reserved order s =
      let o = new_record order in
      let t = refresh_exposure set (record s { orders = insert o.client_order_id o s.orders }) in
      let risk = t.risk_state in
      record t { risk_state = record risk { trades_today = risk.trades_today + 1 } }

  -- The disk takes that state.
  abbrev pub Reserves : OrderRequest F → State F W → Type 0
  Reserves order s = (set.write (snapshot set (reserved order s)) s.world).0 ≡ ok tt

  submit-IsSent :
      (order : OrderRequest F) (s : State F W)
      → Reserves order s
      → IsSent order s.sent (submit set order s).1
  unfolding submit reserve persist refresh_exposure
  submit-IsSent order s writes =
      reserved-IsSent order (new_record order) _ (set.write _ s.world).0 _ writes

module _ {F W : Type 0} ⦃fl : Float F⦄ ⦃fm : Format F⦄ (set : Setting F W) where
  place-IsSent :
      (verdict : ExecutionDecision) (r : Raises (OrderRequest F)) (order : OrderRequest F)
      (s : State F W)
      → Reserves set order s
      → r ≡ ok order
      → IsSent set order s.sent (place set verdict r s).1
  unfolding place log_event refresh_exposure
  place-IsSent verdict (raised e) order s writes h = cc
  place-IsSent verdict (ok made) order s writes h =
      let t : State F W = (log_event "EXECUTION_APPROVED" verdict.client_order_id none s).1 in
      Keeps-continue (IsSent set order s.sent) (submit set made t).0 (λ _. pure verdict)
        (λ _ u q. q) _
        (subst (λ o. IsSent set o s.sent (submit set made t).1) (ok_injective h)
          (submit-IsSent set made t (subst (λ x. Reserves set x s) (sym (ok_injective h)) writes)))

  act-IsSent :
      (r : Request F) (order : OrderRequest F) (s : State F W)
      → Reserves set order s
      → Permitted r
      → order_request set r.client_order_id r.signal_id r.instrument_ref r.market_price ≡ ok order
      → IsSent set order s.sent (act set r s).1
  unfolding act
  act-IsSent r order s writes p h =
      if_cases {A = M (State F W) ExecutionDecision} (λ m. IsSent set order s.sent (m s).1)
        (can_execute_order r).allowed (λ _. place-IsSent (can_execute_order r) _ order s writes h)
        (λ refused. let allowed = (can_execute_order_iff r).1 p in cc)

  -- An entry that the gate permits, and whose order is well formed, hands that order to the adapter,
  -- once, if the disk takes the state in which the order is reserved. No other write matters.
  pub attempt_entry-IsSent :
      (decision : Option (SignalDecision F)) (features : Option (MarketFeatures F))
      (signal_id : String) (now : Timestamp) (reference_price : Option F) (s : State F W)
      (r : Request F) (order : OrderRequest F)
      → Reserves set order (roll_day (date_of now) s)
      → gate_request set decision features signal_id now reference_price (roll_day (date_of now) s)
        ≡ r
      → Permitted r
      → order_request set r.client_order_id r.signal_id r.instrument_ref r.market_price ≡ ok order
      → IsSent set order s.sent
          (attempt_entry set decision features signal_id now reference_price s).1
  unfolding attempt_entry
  attempt_entry-IsSent decision features signal_id now reference_price s r order writes e p h =
      let day = date_of now in
      let t : State F W = roll_day day s in
      subst
        (λ xs.
          IsSent set order xs
            (attempt_entry set decision features signal_id now reference_price s).1)
        (roll_day-sent day s)
        (subst (λ q. IsSent set order t.sent (act set q t).1) (sym e)
          (act-IsSent r order t writes p h))
