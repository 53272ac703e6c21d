-- ===== src/Execution/Service/Submission.antt =====
-- backend/execution/service.py: what `attempt_entry` keeps true, and what it takes to send an order.
use theta_plus.Base.{
  ℕ, ◌≡◌, refl, true, none, String, List, ◌∷◌, arith, is_some, str_eq_iff, str_eq_refl,
}
use mathlib.Core.Path.{subst, sym}
use theta_plus.Base.Dict.{Dict, lookup, insert, lookup-insert}
use theta_plus.Base.Raises.{Raises, ok, raised}
use theta_plus.Base.Effects.{continue, Outcome}
use theta_plus.Execution.Models.{OrderRequest, OrderRecord}
use theta_plus.Execution.Service.State.{Snapshot, Sent, State, Setting}
use theta_plus.Execution.Service.Orders.{exposure, written, snapshot, persist, refresh_exposure}
use theta_plus.Execution.Service.Submit.{new_record, reserve, send, dispatch, submit}
use theta_plus.Execution.Service.Soundness.{
  times, was_written, Sound, copies, insert-Sound, write-Sound, IsSound, Keeps-update,
}
use theta_plus.Execution.Service.Followup.{Keeps-after_submit}

module _ {F : Type 0} where
  -- The order has its place, and its id has not been sent.
  abbrev Reserved : String → Dict (OrderRecord F) → ℕ → List (Sent F) → List (Snapshot F) → Type 0
  Reserved k orders count sent journal =
      Sound orders count sent journal × (times k sent ≡ 0) × (is_some (lookup k orders) ≡ true)

  insert-known :
      (k : String) (o : OrderRecord F) (orders : Dict (OrderRecord F))
      → is_some (lookup k (insert k o orders)) ≡ true
  insert-known k o orders =
      let e = lookup-insert k k o orders in let t = str_eq_refl k in ground arith

  insert-Reserved :
      (k : String) (o : OrderRecord F) (orders : Dict (OrderRecord F)) (count : ℕ)
      (sent : List (Sent F)) (journal : List (Snapshot F))
      → Sound orders count sent journal
      → lookup k orders ≡ none
      → Reserved k (insert k o orders) (exposure (insert k o orders)) sent journal
  insert-Reserved k o orders count sent journal h fresh =
      (insert-Sound k o orders count sent journal h, grind (arith, h.1 k), insert-known k o orders)

  send-Sound :
      (x : Sent F) (orders : Dict (OrderRecord F)) (count : ℕ) (sent : List (Sent F))
      → Reserved x.order.client_order_id orders count sent x.journal
      → was_written x.order.client_order_id x.journal ≡ true
      → Sound orders count (x ∷ sent) x.journal
  unfolding times copies
  send-Sound x orders count sent (h, new, known) w =
      let id = x.order.client_order_id in
      (
        h.0,
        λ j. grind (arith, h.1 j, str_eq_iff id j, new, known),
        (w, h.2),
        λ j. grind (arith, h.3 j, str_eq_iff id j, new, w),
      )

module _ {F W : Type 0} (set : Setting F W) (k : String) where
  abbrev InPlace : State F W → Type 0
  InPlace s = Reserved k s.orders s.risk_state.open_positions s.sent s.journal

  abbrev Sendable : State F W → Type 0
  Sendable s = InPlace s × (was_written k s.journal ≡ true)

  write-Reserved :
      (snap : Snapshot F) (count : ℕ) (sent : List (Sent F)) (journal : List (Snapshot F))
      → Reserved k snap.orders count sent journal
      → Reserved k snap.orders count sent (snap ∷ journal)
  write-Reserved snap count sent journal (h, new, known) =
      (write-Sound snap count sent journal h, new, known)

  written-Outcome :
      (snap : Snapshot F) (r : Raises (Unit {0})) (s : State F W)
      → Reserved k snap.orders s.risk_state.open_positions s.sent s.journal
      → snap.orders ≡ s.orders
      → InPlace s
      → Outcome Sendable IsSound (written set snap r s).0 (written set snap r s).1
  unfolding written
  written-Outcome snap (ok _) s h e _ = (
    subst (λ d. Reserved k d s.risk_state.open_positions s.sent (snap ∷ s.journal)) e
        (write-Reserved snap s.risk_state.open_positions s.sent s.journal h),
    h.2,
  )
  written-Outcome snap (raised e) s _ _ h = h.0

  persist-Outcome :
      (s : State F W) → InPlace s → Outcome Sendable IsSound (persist set s).0 (persist set s).1
  unfolding persist
  persist-Outcome s h =
      written-Outcome (snapshot set s) (set.write (snapshot set s) s.world).0 _ h refl h

  reserve-Outcome :
      (o : OrderRecord F) (s : State F W)
      → IsSound s
      → o.client_order_id ≡ k
      → lookup k s.orders ≡ none
      → Outcome Sendable IsSound (reserve set o s).0 (reserve set o s).1
  unfolding reserve refresh_exposure
  reserve-Outcome o s h e fresh = persist-Outcome _ (
      subst
        (λ i. Reserved k (insert i o s.orders) (exposure (insert i o s.orders)) s.sent s.journal)
        (sym e) (insert-Reserved k o s.orders s.risk_state.open_positions s.sent s.journal h fresh))

module _ {F W : Type 0} (set : Setting F W) where
  dispatch-IsSound :
      (order : OrderRequest F) (o : OrderRecord F) (s : State F W)
      → Sendable set order.client_order_id s
      → IsSound (dispatch set order o s).1
  unfolding dispatch send
  dispatch-IsSound order o s (ready, w) =
      let x : Sent F = record { order = order; journal = s.journal } in
      Keeps-after_submit set Sound (Keeps-update set) o (set.submit_order order s.world).0 _
        (send-Sound x s.orders s.risk_state.open_positions s.sent ready w)

  dispatch-Outcome :
      (order : OrderRequest F) (o : OrderRecord F) (r : Raises (Unit {0})) (t : State F W)
      → Outcome (Sendable set order.client_order_id) IsSound r t
      → IsSound (continue r (λ _. dispatch set order o) t).1
  dispatch-Outcome order o (ok _) t h = dispatch-IsSound order o t h
  dispatch-Outcome order o (raised e) t h = h

  pub Keeps-submit :
      (order : OrderRequest F) (s : State F W)
      → IsSound s
      → lookup order.client_order_id s.orders ≡ none
      → IsSound (submit set order s).1
  unfolding submit new_record
  Keeps-submit order s h fresh =
      let o = new_record order in
      dispatch-Outcome order o (reserve set o s).0 (reserve set o s).1
        (reserve-Outcome set order.client_order_id o s h refl fresh)
