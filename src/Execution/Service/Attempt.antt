-- ===== src/Execution/Service/Attempt.antt =====
-- backend/execution/service.py: `attempt_entry` as a whole. It keeps the state sound, and only what
-- the gate permits reaches the adapter.
use theta_plus.Base.{
  ℕ, ◌≡◌, refl, ap, ◌∙◌, true, false, Option, none, String, arith, is_some, elem, if_ind, if_cases,
}
use mathlib.Core.Path.{subst}
use theta_plus.Base.Float.{Float, Format}
use theta_plus.Base.Dict.{Dict, lookup, keys, elem-keys}
use theta_plus.Base.Raises.{Raises, ok, raised}
use theta_plus.Base.Effects.{M, pure, Keeps-continue}
use theta_plus.Clock.{Timestamp, date_of}
use theta_plus.Market.{MarketFeatures}
use theta_plus.Engine.Models.{SignalDecision}
use theta_plus.Execution.Models.{InstrumentRef, OrderRequest, OrderRecord, ExecutionDecision}
use theta_plus.Execution.Gate.{Request, can_execute_order}
use theta_plus.Execution.Gate.Laws.{can_execute_order_iff, Permitted}
use theta_plus.Execution.Service.State.{State, Setting, log_event}
use theta_plus.Execution.Service.Entry.{
  is_other_day, client_order_id_for, roll_day, gate_request, order_request, block, place, act,
  attempt_entry,
}
use theta_plus.Execution.Service.Submit.{submit}
use theta_plus.Execution.Service.Soundness.{IsSound}
use theta_plus.Execution.Service.Submission.{Keeps-submit}

module _ {F : Type 0} where
  keys_fresh :
      (k : String) (orders : Dict (OrderRecord F))
      → elem k (keys orders) ≡ false
      → lookup k orders ≡ none
  keys_fresh k orders h = let e = elem-keys k orders in ground arith

module _ {F W : Type 0} ⦃fl : Float F⦄ where
  roll_day-orders : (day : ℕ) (s : State F W) → (roll_day day s).orders ≡ s.orders
  unfolding roll_day
  roll_day-orders day s = ground arith

  pub roll_day-sent : (day : ℕ) (s : State F W) → (roll_day day s).sent ≡ s.sent
  unfolding roll_day
  roll_day-sent day s = ground arith

  roll_day-world : (day : ℕ) (s : State F W) → (roll_day day s).world ≡ s.world
  unfolding roll_day
  roll_day-world day s = ground arith

  roll_day-journal : (day : ℕ) (s : State F W) → (roll_day day s).journal ≡ s.journal
  unfolding roll_day
  roll_day-journal day s = ground arith

  -- Nothing was sent, no order changed, and neither the broker nor the disk was called.
  abbrev pub IsUntouched : State F W → State F W → Type 0
  IsUntouched t s =
      (t.sent ≡ s.sent) × (t.orders ≡ s.orders) × (t.world ≡ s.world) × (t.journal ≡ s.journal)

  pub roll_day-report : (day : ℕ) (s : State F W) → (roll_day day s).report ≡ s.report
  unfolding roll_day
  roll_day-report day s = ground arith

  pub Keeps-roll_day : (day : ℕ) (s : State F W) → IsSound s → IsSound (roll_day day s)
  unfolding roll_day
  Keeps-roll_day day s h = if_ind IsSound (is_other_day s.risk_day day) h h

module _ {F W : Type 0} ⦃fl : Float F⦄ ⦃fm : Format F⦄ (set : Setting F W) where
  Keeps-place :
      (verdict : ExecutionDecision) (r : Raises (OrderRequest F)) (s : State F W) (k : String)
      → IsSound s
      → lookup k s.orders ≡ none
      → ((order : OrderRequest F) → r ≡ ok order → order.client_order_id ≡ k)
      → IsSound (place set verdict r s).1
  unfolding place log_event
  Keeps-place verdict (raised e) s k h fresh same = h
  Keeps-place verdict (ok order) s k h fresh same =
      let e = same order refl in
      Keeps-continue IsSound (submit set order _).0 (λ _. pure verdict) (λ _ t q. q) _
        (Keeps-submit set order _ h (ap (λ i. lookup i s.orders) e ∙ fresh))

  order_request-id :
      (k signal_id : String) (ref : Option InstrumentRef) (ltp : Option F) (order : OrderRequest F)
      → order_request set k signal_id ref ltp ≡ ok order
      → order.client_order_id ≡ k
  unfolding order_request
  order_request-id k signal_id ref ltp order h = ground arith

  permitted-fresh :
      (r : Request F) (s : State F W)
      → r.existing_client_order_ids ≡ keys s.orders
      → (can_execute_order r).allowed ≡ true
      → lookup r.client_order_id s.orders ≡ none
  permitted-fresh r s e h =
      let p = (can_execute_order_iff r).0 h in
      keys_fresh r.client_order_id s.orders
        (subst (λ ids. elem r.client_order_id ids ≡ false) e p.fresh_id)

  Keeps-act :
      (r : Request F) (s : State F W)
      → r.existing_client_order_ids ≡ keys s.orders
      → IsSound s
      → IsSound (act set r s).1
  unfolding act block log_event
  Keeps-act r s e h =
      if_cases {A = M (State F W) ExecutionDecision} (λ m. IsSound (m s).1)
        (can_execute_order r).allowed
        (λ allowed.
          Keeps-place (can_execute_order r) _ s r.client_order_id h (permitted-fresh r s e allowed)
            (order_request-id r.client_order_id r.signal_id r.instrument_ref r.market_price))
        (λ _. h)

  -- `attempt_entry` keeps the state sound whatever the broker and the disk answer. In a sound
  -- state no client order id has reached the adapter twice, every order that has is in memory and in
  -- the newest journal entry and was there when it was sent, and the count of open positions is the
  -- exposure of the orders.
  pub attempt_entry-IsSound :
      (decision : Option (SignalDecision F)) (features : Option (MarketFeatures F))
      (signal_id : String) (now : Timestamp) (reference_price : Option F) (s : State F W)
      → IsSound s
      → IsSound (attempt_entry set decision features signal_id now reference_price s).1
  unfolding attempt_entry gate_request
  attempt_entry-IsSound decision features signal_id now reference_price s h =
      let t = roll_day (date_of now) s in
      Keeps-act (gate_request set decision features signal_id now reference_price t) t refl
        (Keeps-roll_day (date_of now) s h)

  act-refused : (r : Request F) (s : State F W) → ¬ Permitted r → IsUntouched (act set r s).1 s
  unfolding act block log_event
  act-refused r s refused =
      if_cases {A = M (State F W) ExecutionDecision} (λ m. IsUntouched (m s).1 s)
        (can_execute_order r).allowed
        (λ allowed. absurd (refused ((can_execute_order_iff r).0 allowed)))
        (λ _. (refl, refl, refl, refl))

  -- An entry that the gate does not permit sends nothing, changes no order, and calls neither the
  -- adapter nor the disk: the world that they see and change, and the journal, stay as they were.
  pub attempt_entry-refused :
      (decision : Option (SignalDecision F)) (features : Option (MarketFeatures F))
      (signal_id : String) (now : Timestamp) (reference_price : Option F) (s : State F W)
      → ¬ Permitted (
          gate_request set decision features signal_id now reference_price
            (roll_day (date_of now) s))
      → IsUntouched (attempt_entry set decision features signal_id now reference_price s).1 s
  unfolding attempt_entry
  attempt_entry-refused decision features signal_id now reference_price s refused =
      let t = roll_day (date_of now) s in
      let (sent, orders, world, journal) =
        act-refused (gate_request set decision features signal_id now reference_price t) t
          refused in
      (
        sent ∙ roll_day-sent (date_of now) s,
        orders ∙ roll_day-orders (date_of now) s,
        world ∙ roll_day-world (date_of now) s,
        journal ∙ roll_day-journal (date_of now) s,
      )

  known-elem :
      (k : String) (orders : Dict (OrderRecord F))
      → is_some (lookup k orders) ≡ true
      → elem k (keys orders) ≡ true
  known-elem k orders h = elem-keys k orders ∙ h

  -- A signal that has an order already is not sent again, whatever became of the order.
  pub attempt_entry-repeat :
      (decision : Option (SignalDecision F)) (features : Option (MarketFeatures F))
      (signal_id : String) (now : Timestamp) (reference_price : Option F) (s : State F W)
      → is_some (lookup (client_order_id_for set signal_id) s.orders) ≡ true
      → IsUntouched (attempt_entry set decision features signal_id now reference_price s).1 s
  unfolding gate_request
  attempt_entry-repeat decision features signal_id now reference_price s known =
      attempt_entry-refused decision features signal_id now reference_price s (λ p.
        let e = known-elem (client_order_id_for set signal_id) s.orders known in
        let o =
          ap (λ d. elem (client_order_id_for set signal_id) (keys d))
            (roll_day-orders (date_of now) s) in
        let f = p.fresh_id in cc)
