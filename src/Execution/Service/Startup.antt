-- ===== src/Execution/Service/Startup.antt =====
-- backend/execution/service.py: what the constructor restores, the kill switch, realised losses,
-- the exit check and the reconciliation at startup.
use theta_plus.Base.{
  Bool, true, false, not, ◌||◌, Option, none, some, String, List, [], ◌∷◌, if◌then◌else◌, length,
  find_first, str_eq, ◌==◌,
}
use theta_plus.Base.Int.{ℤ, pos, eq_ℤ, ◌-ℤ◌}
use theta_plus.Base.Float.{Float, f_lt}
use theta_plus.Base.Dict.{Dict}
use theta_plus.Base.Raises.{Raises, ok, raised, value_error}
use theta_plus.Base.Effects.{M, pure, modify, gets, ◌>>=◌, ◌>>◌, attempt}
use theta_plus.Config.{ProductType, cnc, intraday, margin, mtf, co, bo}
use theta_plus.Execution.Models.{
  max_daily_loss, ReconState, pending, OrderStatus, requested, submitted, acknowledged,
  partially_filled, unknown, Transaction, buy, OrderRecord, BrokerPosition,
}
use theta_plus.Execution.Positions.{Book, Contract, add, open_only}
use theta_plus.Execution.Risk.{RiskState, loss}
use theta_plus.Execution.Gate.{is_agreed}
use theta_plus.Execution.Reconciliation.{reconcile, mark_pending, pending_report}
use theta_plus.Execution.Service.State.{Snapshot, Sent, State, Setting, outside, log_event}
use theta_plus.Execution.Service.Orders.{persist, refresh_exposure, refresh_order}

-- `record.status in uncertain`
abbrev is_uncertain : OrderStatus → Bool
is_uncertain requested = true
is_uncertain submitted = true
is_uncertain acknowledged = true
is_uncertain partially_filled = true
is_uncertain unknown = true
is_uncertain _ = false

module _ {F : Type 0} where
  unfoldable pub unresolved : OrderRecord F → Bool
  unresolved o = is_uncertain o.status || not o.broker_confirmed

  unfoldable pub any_unresolved : Dict (OrderRecord F) → Bool
  any_unresolved [] = false
  any_unresolved ((_, o) ∷ d) = if unresolved o then true else any_unresolved d

  -- The keys to refresh, from the list as it stands when the loop begins.
  unfoldable pub to_refresh : Dict (OrderRecord F) → List String
  to_refresh [] = []
  to_refresh ((k, o) ∷ d) = let rest = to_refresh d in if unresolved o then k ∷ rest else rest

-- `q * (1 if transaction_type == "BUY" else -1)`
abbrev signed : Transaction → ℤ → ℤ
signed buy q = q
signed _ q = pos 0 -ℤ q

abbrev product_text : ProductType → String
product_text cnc = "CNC"
product_text intraday = "INTRADAY"
product_text margin = "MARGIN"
product_text mtf = "MTF"
product_text co = "CO"
product_text bo = "BO"

pub data ExitVerdict : Type 0 where
  exit_allowed unreconciled no_live_position : ExitVerdict

-- `position is None or position.net_qty == 0`
abbrev holds_position : Option BrokerPosition → Bool
holds_position none = false
holds_position (some p) = not (eq_ℤ p.net_qty (pos 0))

unfoldable pub exit_of : String → Raises (List BrokerPosition) → ExitVerdict
exit_of security_id (raised e) = unreconciled
exit_of security_id (ok positions) =
    if holds_position (find_first (λ p. str_eq p.security_id security_id) positions)
    then exit_allowed
    else no_live_position

module _ {F : Type 0} where
  abbrev order_contract : OrderRecord F → Contract
  order_contract o = record {
    segment = o.exchange_segment;
    security_id = o.security_id;
    product_type = product_text o.product_type;
  }

  -- The loop that sums the filled orders by contract.
  unfoldable pub expected_from : Book → Dict (OrderRecord F) → Book
  expected_from book [] = book
  expected_from book ((_, o) ∷ d) =
      expected_from
        (if eq_ℤ o.filled_quantity (pos 0)
          then book
          else add (order_contract o) (signed o.transaction_type o.filled_quantity) book)
        d

  unfoldable pub expected_book : Dict (OrderRecord F) → Book
  expected_book orders = open_only (expected_from [] orders)

module _ {F W : Type 0} where
  -- The constructor, on the journal that it finds.
  unfoldable pub fresh : F → Bool → List (Snapshot F) → W → List (Sent F) → State F W
  fresh nought env_kill journal world sent = record {
    orders = [];
    risk_state = record {
      trades_today = 0;
      open_positions = 0;
      realized_pnl_today = nought;
      locked = false;
    };
    risk_day = none;
    kill_switch = env_kill;
    report = pending_report 0;
    last_block_reason = none;
    log = [];
    journal = journal;
    world = world;
    sent = sent;
  }

module _ {F W : Type 0} (set : Setting F W) where
  -- `can_exit`
  unfoldable pub can_exit : String → M (State F W) ExitVerdict
  can_exit security_id s =
      if is_agreed s.report.state
      then (attempt (outside set.get_positions) >>= λ answer. pure (exit_of security_id answer)) s
      else pure unreconciled s

  -- `engage_kill_switch`
  unfoldable pub engage_kill_switch : M (State F W) (Unit {0})
  engage_kill_switch = modify (λ s. record s { kill_switch = true }) >> persist set

  unfoldable pub refresh_all : List String → M (State F W) (Unit {0})
  refresh_all [] = pure tt
  refresh_all (k ∷ ks) = do _ ← refresh_order set k; refresh_all ks

  unfoldable pub hold_pending : M (State F W) ReconState
  hold_pending = do modify (λ s. record s { report = mark_pending s.report }); pure pending

  unfoldable pub compared : Book → Raises (List BrokerPosition) → M (State F W) ReconState
  compared expected answer = do
    let report = reconcile (length expected) (some expected) answer
    modify (λ s. record s { report = report })
    log_event "RECONCILIATION" "" none
    pure report.state

  -- Once every order is resolved, what the orders filled is compared with the broker's positions.
  unfoldable pub compare_positions : M (State F W) ReconState
  compare_positions = do
    expected ← gets (λ s. expected_book s.orders)
    answer ← attempt (outside set.get_positions)
    compared expected answer

  unfoldable pub settle : Bool → M (State F W) ReconState
  settle unsettled = if unsettled then hold_pending else compare_positions

  unfoldable pub reconcile_configured : M (State F W) ReconState
  reconcile_configured = do
    ks ← gets (λ s. to_refresh s.orders)
    _ ← refresh_all ks
    unsettled ← gets (λ s. any_unresolved s.orders)
    settle unsettled

  -- `startup_reconcile`
  unfoldable pub startup_reconcile : M (State F W) ReconState
  startup_reconcile =
      if set.adapter_configured
      then reconcile_configured
      else (do state ← hold_pending; log_event "RECONCILIATION" "" none; pure state)

  -- What the journal gives back is taken to be the document that was saved: `json.loads`,
  -- `model_validate` and `RiskState(**...)` are not modelled.
  unfoldable pub restore : Snapshot F → State F W → Raises (State F W)
  restore saved s =
      if not (str_eq saved.namespace set.namespace)
      then raised value_error
      else (if not (saved.schema == 1)
          then raised value_error
          else let t = refresh_exposure set (record s {
            orders = saved.orders;
            risk_state = saved.risk;
            risk_day = saved.risk_day;
            kill_switch = s.kill_switch || saved.kill_switch;
          }) in
            ok (record t { report = mark_pending t.report }))

  unfoldable pub start_from : List (Snapshot F) → State F W → Raises (State F W)
  start_from [] s = ok s
  start_from (saved ∷ _) s = restore saved s

module _ {F W : Type 0} ⦃fl : Float F⦄ (set : Setting F W) where
  -- `__init__`; `sent` is only carried over, to speak about restarts.
  unfoldable pub start : Bool → List (Snapshot F) → W → List (Sent F) → Raises (State F W)
  start env_kill journal world sent =
      start_from set journal (fresh fl.nought env_kill journal world sent)

  abbrev limit_loss : F → RiskState F → RiskState F
  limit_loss amount risk = record risk {
    realized_pnl_today = fl.round2 (fl.add risk.realized_pnl_today amount);
  }

  unfoldable pub lock_if : Bool → M (State F W) (Unit {0})
  lock_if exceeded =
      if exceeded
      then (modify (λ s.
            let risk = s.risk_state in record s { risk_state = record risk { locked = true } })
          >> log_event "LIVE_EXECUTION_LOCKED" "" (some max_daily_loss))
      else pure tt

  -- `record_realized_pnl`
  unfoldable pub record_realized_pnl : F → M (State F W) (Unit {0})
  record_realized_pnl amount = do
    modify (λ s. record s { risk_state = limit_loss amount s.risk_state })
    exceeded ←
        gets (λ s. f_lt set.config.risk_max_daily_loss (loss s.risk_state.realized_pnl_today))
    lock_if exceeded
    persist set
