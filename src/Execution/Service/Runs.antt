-- ===== src/Execution/Service/Runs.antt =====
-- backend/execution/service.py: the life of a service as a run of its methods, over any number of
-- restarts, whatever the broker and the disk answer.
use theta_plus.Base.{ℕ, ◌≤◌, ◌≡◌, Bool, true, false, Option, String, List, [], ◌∷◌, if_ind, arith}
use theta_plus.Base.Float.{Float, Format}
use theta_plus.Base.Dict.{Dict, lookup}
use theta_plus.Base.Raises.{Raises, ok}
use theta_plus.Base.Effects.{Keeps, Keeps-if, Keeps-bind, Keeps-continue}
use theta_plus.Clock.{Timestamp}
use theta_plus.Market.{MarketFeatures}
use theta_plus.Engine.Models.{SignalDecision}
use theta_plus.Execution.Models.{BrokerPosition, OrderRecord}
use theta_plus.Execution.Positions.{Book}
use theta_plus.Execution.Service.State.{Snapshot, State, Setting, log_event}
use theta_plus.Execution.Service.Orders.{exposure, persist, refresh_order}
use theta_plus.Execution.Service.Entry.{attempt_entry}
use theta_plus.Execution.Service.Startup.{
  ExitVerdict, start, engage_kill_switch, record_realized_pnl, lock_if, can_exit, refresh_all,
  hold_pending, compared, compare_positions, settle, reconcile_configured, startup_reconcile,
  to_refresh, any_unresolved, expected_book,
}
use theta_plus.Execution.Service.Soundness.{
  times, copies, allowance, IsSound, Keeps-persist, Keeps-refresh_order,
}
use theta_plus.Execution.Service.Attempt.{attempt_entry-IsSound}
use theta_plus.Execution.Service.Restart.{start-Sound, start-IsSound}

module _ {F W : Type 0} (set : Setting F W) where
  Keeps-engage_kill_switch : Keeps IsSound (engage_kill_switch set)
  unfolding engage_kill_switch
  Keeps-engage_kill_switch s h = Keeps-persist set _ h

  Keeps-refresh_all : (ks : List String) → Keeps IsSound (refresh_all set ks)
  unfolding refresh_all
  Keeps-refresh_all [] s h = h
  Keeps-refresh_all (k ∷ ks) s h =
      Keeps-continue IsSound (refresh_order set k s).0 (λ _. refresh_all set ks)
        (λ _. Keeps-refresh_all ks) _ (Keeps-refresh_order set k s h)

  Keeps-compared :
      (expected : Book) (answer : Raises (List BrokerPosition))
      → Keeps IsSound (compared set expected answer)
  unfolding compared log_event
  Keeps-compared expected answer s h = h

  Keeps-settle : (unsettled : Bool) → Keeps IsSound (settle set unsettled)
  unfolding settle hold_pending compare_positions
  Keeps-settle true s h = h
  Keeps-settle false s h = Keeps-compared (expected_book s.orders) (set.get_positions s.world).0 _ h

  Keeps-reconcile_configured : Keeps IsSound (reconcile_configured set)
  unfolding reconcile_configured
  Keeps-reconcile_configured s h =
      Keeps-continue IsSound (refresh_all set (to_refresh s.orders) s).0
        (λ _ t. settle set (any_unresolved t.orders) t)
        (λ _ t. Keeps-settle (any_unresolved t.orders) t) _
        (Keeps-refresh_all (to_refresh s.orders) s h)

  Keeps-startup_reconcile : Keeps IsSound (startup_reconcile set)
  unfolding startup_reconcile hold_pending log_event
  Keeps-startup_reconcile =
      Keeps-if IsSound set.adapter_configured _ _ Keeps-reconcile_configured (λ s h. h)

  Keeps-can_exit : (id : String) → Keeps IsSound (can_exit set id)
  unfolding can_exit
  Keeps-can_exit id s h = if_ind {A = Raises ExitVerdict × State F W} (λ r. IsSound r.1) _ h h

module _ {F W : Type 0} ⦃fl : Float F⦄ (set : Setting F W) where
  Keeps-lock_if : (exceeded : Bool) → Keeps IsSound (lock_if set exceeded)
  unfolding lock_if log_event
  Keeps-lock_if true s h = h
  Keeps-lock_if false s h = h

  Keeps-record_realized_pnl : (amount : F) → Keeps IsSound (record_realized_pnl set amount)
  unfolding record_realized_pnl
  Keeps-record_realized_pnl amount s h =
      Keeps-bind IsSound (lock_if set _) (λ _. persist set) (Keeps-lock_if _)
        (λ _. Keeps-persist set) _ h

module _ {F W : Type 0} ⦃fl : Float F⦄ ⦃fm : Format F⦄ (set : Setting F W) where
  -- One call of a method, a change of the outside world, or a stop and a new start.
  pub data Step : State F W → State F W → Type 0 where
    entry :
        (decision : Option (SignalDecision F)) (features : Option (MarketFeatures F))
        (signal_id : String) (now : Timestamp) (reference_price : Option F) (s : State F W)
        → Step s (attempt_entry set decision features signal_id now reference_price s).1
    refresh : (k : String) (s : State F W) → Step s (refresh_order set k s).1
    exit_check : (security_id : String) (s : State F W) → Step s (can_exit set security_id s).1
    kill : (s : State F W) → Step s (engage_kill_switch set s).1
    realize : (amount : F) (s : State F W) → Step s (record_realized_pnl set amount s).1
    reconcile_at_start : (s : State F W) → Step s (startup_reconcile set s).1
    elsewhere : (world : W) (s : State F W) → Step s (record s { world = world })
    restart :
        (env_kill : Bool) (world : W) (s t : State F W)
        → start set env_kill s.journal world s.sent ≡ ok t
        → Step s t

  pub data Run : State F W → State F W → Type 0 where
    done : (s : State F W) → Run s s
    next : (s t u : State F W) → Step s t → Run t u → Run s u

  Step-IsSound : (s t : State F W) → Step s t → IsSound s → IsSound t
  Step-IsSound _ _ (entry decision features signal_id now reference_price s) h =
      attempt_entry-IsSound set decision features signal_id now reference_price s h
  Step-IsSound _ _ (refresh k s) h = Keeps-refresh_order set k s h
  Step-IsSound _ _ (exit_check id s) h = Keeps-can_exit set id s h
  Step-IsSound _ _ (kill s) h = Keeps-engage_kill_switch set s h
  Step-IsSound _ _ (realize amount s) h = Keeps-record_realized_pnl set amount s h
  Step-IsSound _ _ (reconcile_at_start s) h = Keeps-startup_reconcile set s h
  Step-IsSound _ _ (elsewhere world s) h = h
  Step-IsSound s t (restart env_kill world _ _ e) h = start-IsSound set env_kill s t world h e

  Run-IsSound : (s t : State F W) → Run s t → IsSound s → IsSound t
  Run-IsSound _ _ (done s) h = h
  Run-IsSound _ _ (next s t u step run) h = Run-IsSound t u run (Step-IsSound s t step h)

  at_most_one :
      (orders : Dict (OrderRecord F)) (k : String) (n : ℕ) → n ≤ allowance (lookup k orders) → n ≤ 1
  at_most_one orders k n h = ground arith

  -- From the first start on, over every sequence of calls, answers of the broker, failures of the
  -- disk and restarts: an order id reaches the broker at most once, and the count of open positions
  -- that the risk limits read is the exposure of the orders.
  pub Run-once :
      (env_kill : Bool) (journal : List (Snapshot F)) (world : W) (s t : State F W)
      → start set env_kill journal world [] ≡ ok s
      → Run s t
      → ((k : String) → times k t.sent ≤ 1) × (t.risk_state.open_positions ≡ exposure t.orders)
  unfolding times copies
  Run-once env_kill journal world s t h run =
      let sound =
        Run-IsSound s t run (start-Sound set env_kill journal world [] s h tt (λ k. omega arith)) in
      (λ k. at_most_one t.orders k (times k t.sent) (sound.1 k), sound.0)
