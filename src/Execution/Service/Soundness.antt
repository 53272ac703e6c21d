-- ===== src/Execution/Service/Soundness.antt =====
-- What backend/execution/service.py keeps true of its orders and of what it has sent: the lemmas for
-- each of its steps.
use theta_plus.Base.{
  ℕ, suc, ◌≤◌, ◌≡◌, refl, Bool, true, false, Option, none, some, String, List, [], ◌∷◌,
  if◌then◌else◌, arith, is_some, str_eq, truthy, or_else, All,
}
use mathlib.Core.Path.{subst}
use theta_plus.Base.Dict.{Dict, lookup, insert, lookup-insert}
use theta_plus.Base.Raises.{Raises, ok, raised}
use theta_plus.Base.Effects.{Keeps, Keeps-if, Keeps-continue}
use theta_plus.Execution.Models.{OrderRecord, BrokerOrderState}
use theta_plus.Execution.Service.State.{Snapshot, Sent, State, Setting, log_event}
use theta_plus.Execution.Service.Orders.{
  exposure, written, snapshot, persist, refresh_exposure, update, ask_broker, answered,
  refresh_found, refresh_order,
}
use theta_plus.Execution.Service.Followup.{Keeps-apply_broker_state}

module _ {F : Type 0} where
  -- How often a client order id has been sent.
  unfoldable pub times : String → List (Sent F) → ℕ
  times k [] = 0
  times k (x ∷ xs) =
      let rest = times k xs in if str_eq x.order.client_order_id k then suc rest else rest

  -- At most once for an id of the dictionary, never for another.
  abbrev pub allowance : Option (OrderRecord F) → ℕ
  allowance none = 0
  allowance (some _) = 1

  -- The newest entry of the journal holds the order.
  abbrev pub was_written : String → List (Snapshot F) → Bool
  was_written k [] = false
  was_written k (snap ∷ _) = is_some (lookup k snap.orders)

  abbrev pub Journaled : Sent F → Type 0
  Journaled x = was_written x.order.client_order_id x.journal ≡ true

  unfoldable pub copies : String → List (Snapshot F) → ℕ
  copies k journal = if was_written k journal then 1 else 0

  abbrev pub Sound : Dict (OrderRecord F) → ℕ → List (Sent F) → List (Snapshot F) → Type 0
  Sound orders count sent journal =
      (count ≡ exposure orders)
      × ((k : String) → times k sent ≤ allowance (lookup k orders))
      × All Journaled sent
      × ((k : String) → times k sent ≤ copies k journal)

  pub insert-Sound :
      (k : String) (o : OrderRecord F) (orders : Dict (OrderRecord F)) (count : ℕ)
      (sent : List (Sent F)) (journal : List (Snapshot F))
      → Sound orders count sent journal
      → Sound (insert k o orders) (exposure (insert k o orders)) sent journal
  insert-Sound k o orders count sent journal (_, once, saved, durable) =
      (refl, λ j. grind (arith, once j, lookup-insert k j o orders), saved, durable)

  -- A new entry with the orders as they are.
  pub write-Sound :
      (snap : Snapshot F) (count : ℕ) (sent : List (Sent F)) (journal : List (Snapshot F))
      → Sound snap.orders count sent journal
      → Sound snap.orders count sent (snap ∷ journal)
  unfolding copies
  write-Sound snap count sent journal (open_count, once, saved, durable) =
      (open_count, once, saved, λ k. let h = once k in ground arith)

module _ {F W : Type 0} where
  -- The count of open positions is the exposure of the orders. An id is sent at most once, and only
  -- when it has an order, here and in the journal. Its order was in the journal when it was sent.
  abbrev pub IsSound : State F W → Type 0
  IsSound s = Sound s.orders s.risk_state.open_positions s.sent s.journal

module _ {F W : Type 0} (set : Setting F W) where
  Keeps_written :
      (snap : Snapshot F) (r : Raises (Unit {0})) (s : State F W)
      → Sound snap.orders s.risk_state.open_positions s.sent s.journal
      → snap.orders ≡ s.orders
      → IsSound s
      → IsSound (written set snap r s).1
  unfolding written
  Keeps_written snap (ok _) s h e _ =
      subst (λ d. Sound d s.risk_state.open_positions s.sent (snap ∷ s.journal)) e
        (write-Sound snap s.risk_state.open_positions s.sent s.journal h)
  Keeps_written snap (raised e) s _ _ h = h

  pub Keeps-persist : Keeps IsSound (persist set)
  unfolding persist
  Keeps-persist s h =
      Keeps_written (snapshot set s) (set.write (snapshot set s) s.world).0 _ h refl h

  pub Keeps-update : (o : OrderRecord F) → Keeps IsSound (update set o)
  unfolding update refresh_exposure
  Keeps-update o s h =
      Keeps-continue IsSound _ _ (λ _ t q. q) _
        (Keeps-persist _ (
          insert-Sound o.client_order_id o s.orders s.risk_state.open_positions s.sent s.journal h))

  Keeps-answered :
      (coid : String) (o : OrderRecord F) (r : Raises (Option (BrokerOrderState F)))
      → Keeps IsSound (answered set coid o r)
  unfolding answered log_event
  Keeps-answered coid o (raised e) s h = h
  Keeps-answered coid o (ok none) s h = h
  Keeps-answered coid o (ok (some state)) s h =
      Keeps-continue IsSound _ _ (λ _ t q. q) _
        (Keeps-apply_broker_state set Sound Keeps-update o state s h)

  Keeps-ask_broker : (o : OrderRecord F) (coid : String) → Keeps IsSound (ask_broker set o coid)
  unfolding ask_broker
  Keeps-ask_broker o coid =
      Keeps-if IsSound (truthy (or_else o.broker_order_id "")) _ _
        (λ s h.
          Keeps-continue IsSound (set.get_order (or_else o.broker_order_id "") s.world).0 _
            (λ _ t q. q) _ h)
        (λ s h. h)

  Keeps-refresh_found :
      (coid : String) (o : Option (OrderRecord F)) → Keeps IsSound (refresh_found set coid o)
  unfolding refresh_found
  Keeps-refresh_found coid none s h = h
  Keeps-refresh_found coid (some o) s h =
      Keeps-answered coid o (ask_broker set o coid s).0 _ (Keeps-ask_broker o coid s h)

  pub Keeps-refresh_order : (coid : String) → Keeps IsSound (refresh_order set coid)
  unfolding refresh_order
  Keeps-refresh_order coid s h = Keeps-refresh_found coid (lookup coid s.orders) s h
