-- ===== src/Execution/Service/Restart.antt =====
-- backend/execution/service.py: a service that starts again from the journal of another one.
use theta_plus.Base.{
  ℕ, ◌≤◌, ◌≡◌, refl, ap, Bool, ◌||◌, Option, str_eq_refl, String, List, [], ◌∷◌, arith, All,
}
use mathlib.Core.Path.{subst, sym}
use theta_plus.Base.Dict.{Dict, lookup}
use theta_plus.Base.Float.{Float, Format}
use theta_plus.Base.Raises.{ok, ok_injective}
use theta_plus.Clock.{Timestamp, date_of}
use theta_plus.Market.{MarketFeatures}
use theta_plus.Engine.Models.{SignalDecision}
use theta_plus.Execution.Models.{OrderRecord, pending}
use theta_plus.Execution.Service.State.{Snapshot, Sent, State, Setting}
use theta_plus.Execution.Service.Orders.{exposure, refresh_exposure, persist, written, snapshot}
use theta_plus.Execution.Service.Entry.{gate_request, attempt_entry}
use theta_plus.Execution.Service.Startup.{fresh, restore, start_from, start}
use theta_plus.Execution.Service.Soundness.{times, copies, Journaled, Sound, IsSound}
use theta_plus.Execution.Service.Attempt.{roll_day-report, attempt_entry-refused}

module _ {F : Type 0} where
  Sound-of :
      {d d' : Dict (OrderRecord F)} {n n' : ℕ} {xs xs' : List (Sent F)} {j j' : List (Snapshot F)}
      → d' ≡ d
      → n' ≡ n
      → xs' ≡ xs
      → j' ≡ j
      → Sound d n xs j
      → Sound d' n' xs' j'
  Sound-of {d' = d'} {n = n} {n' = n'} {xs = xs} {xs' = xs'} {j = j} ed en ex ej h =
      subst (Sound d' n' xs') (sym ej) (
        subst (λ x. Sound d' n' x j) (sym ex)
          (subst (λ m. Sound d' m xs j) (sym en) (subst (λ o. Sound o n xs j) (sym ed) h)))

  Sound-saved :
      (saved : Snapshot F) (sent : List (Sent F)) (journal : List (Snapshot F))
      → All Journaled sent
      → ((k : String) → times k sent ≤ copies k (saved ∷ journal))
      → Sound saved.orders (exposure saved.orders) sent (saved ∷ journal)
  unfolding copies
  Sound-saved saved sent journal written durable =
      (refl, λ k. let d = durable k in ground arith, written, durable)

module _ {F W : Type 0} (set : Setting F W) where
  -- A restored state has the orders of the entry, their exposure, and no reconciliation.
  restore_parts :
      (saved : Snapshot F) (s t : State F W)
      → restore set saved s ≡ ok t
      → (t.orders ≡ saved.orders)
        × (t.risk_state.open_positions ≡ exposure saved.orders)
        × (t.sent ≡ s.sent)
        × (t.journal ≡ s.journal)
        × (t.report.state ≡ pending)
  unfolding restore refresh_exposure
  restore_parts saved s t h = ground arith

module _ {F W : Type 0} ⦃fl : Float F⦄ ⦃fm : Format F⦄ (set : Setting F W) where
  start-pending :
      (env_kill : Bool) (journal : List (Snapshot F)) (world : W) (sent : List (Sent F))
      (t : State F W)
      → start set env_kill journal world sent ≡ ok t
      → t.report.state ≡ pending
  unfolding start start_from fresh
  start-pending env_kill [] world sent t h = ground arith
  start-pending env_kill (saved ∷ journal) world sent t h = (restore_parts set saved _ t h).4

  -- A service that has just started sends nothing, whatever it is asked to: it has to reconcile first.
  pub start-refuses :
      (env_kill : Bool) (journal : List (Snapshot F)) (world : W) (sent : List (Sent F))
      (t : State F W) (decision : Option (SignalDecision F)) (features : Option (MarketFeatures F))
      (signal_id : String) (now : Timestamp) (reference_price : Option F)
      → start set env_kill journal world sent ≡ ok t
      → (attempt_entry set decision features signal_id now reference_price t).1.sent ≡ t.sent
  unfolding gate_request
  start-refuses env_kill journal world sent t decision features signal_id now reference_price h =
      let e = start-pending env_kill journal world sent t h in
      (attempt_entry-refused set decision features signal_id now reference_price t (λ p.
        let r = ap (λ x. x.state) (roll_day-report (date_of now) t) in
        let a = p.reconciled in cc)).0

  pub start-Sound :
      (env_kill : Bool) (journal : List (Snapshot F)) (world : W) (sent : List (Sent F))
      (t : State F W)
      → start set env_kill journal world sent ≡ ok t
      → All Journaled sent
      → ((k : String) → times k sent ≤ copies k journal)
      → IsSound t
  unfolding start start_from fresh exposure copies lookup
  start-Sound env_kill [] world sent t h written durable =
      subst IsSound (ok_injective h) (refl, λ k. durable k, written, durable)
  start-Sound env_kill (saved ∷ journal) world sent t h written durable =
      let (orders, count, same, kept, _) = restore_parts set saved _ t h in
      Sound-of orders count same kept (Sound-saved saved sent journal written durable)

  -- A service that stops at any moment of a sound state and starts again from its journal is in a
  -- sound state: what was sent before the stop still cannot be sent again.
  pub start-IsSound :
      (env_kill : Bool) (s t : State F W) (world : W)
      → IsSound s
      → start set env_kill s.journal world s.sent ≡ ok t
      → IsSound t
  start-IsSound env_kill s t world (_, _, written, durable) h =
      start-Sound env_kill s.journal world s.sent t h written durable

module _ {F W : Type 0} ⦃fl : Float F⦄ (set : Setting F W) where
  journal-persist :
      (s t : State F W) → persist set s ≡ (ok tt, t) → t.journal ≡ snapshot set s ∷ s.journal
  unfolding persist written
  journal-persist s t e = ground arith

  -- What a service has written comes back: where the write succeeded and the count of open positions
  -- was the exposure, a service that starts from that journal has the same orders, risk counters and
  -- risk day, and its kill switch is engaged exactly if it was engaged before or is in the environment.
  pub start-persist :
      (env_kill : Bool) (world : W) (s t : State F W)
      → s.risk_state.open_positions ≡ exposure s.orders
      → persist set s ≡ (ok tt, t)
      → (u : State F W) × (start set env_kill t.journal world t.sent ≡ ok u)
        × (u.orders ≡ s.orders)
        × (u.risk_state ≡ s.risk_state)
        × (u.risk_day ≡ s.risk_day)
        × (u.kill_switch ≡ (env_kill || s.kill_switch))
  unfolding start start_from restore refresh_exposure fresh
  start-persist env_kill world s t same e =
      rw (journal-persist s t e, str_eq_refl set.namespace)
        (_, refl, refl, ground arith, refl, ground arith)
