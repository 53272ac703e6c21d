-- ===== src/Examples/Execution.antt =====
-- The theorems about the execution service (backend/execution), applied to the test data.
use theta_plus.Base.{◌≤◌, ◌≡◌, refl, ◌↔◌, true, false, Option, none, some, String, [], ◌∷◌, arith}
use theta_plus.Base.Int.{pos, ◌+ℤ◌, ◌-ℤ◌}
use theta_plus.Base.Raises.{ok}
use theta_plus.Clock.{date_of}
use theta_plus.Config.{limit, intraday}
use theta_plus.Execution.Models.{buy, agreed, BrokerOrderState}
use theta_plus.Execution.Risk.{RiskState, loss, price_valid}
use theta_plus.Execution.Gate.{Request, can_execute_order}
use theta_plus.Execution.Gate.Laws.{Permitted, can_execute_order_iff}
use theta_plus.Execution.Positions.{
  included, Book, Contract, get, add, open_only, same_book, same_contract,
}
use theta_plus.Execution.Reconciliation.{reconcile, open_positions, actual_book, tally_from}
use theta_plus.Execution.Service.State.{log_event, State}
use theta_plus.Execution.Service.Orders.{exposed, exposure, refresh_exposure}
use theta_plus.Execution.Service.Entry.{client_order_id_for, roll_day, gate_request, attempt_entry}
use theta_plus.Execution.Service.Startup.{
  reconcile_configured, refresh_all, to_refresh, unresolved, settle, any_unresolved,
  compare_positions, compared, expected_book, expected_from, fresh, start, start_from, restore,
  startup_reconcile,
}
use theta_plus.Execution.Service.Soundness.{times, IsSound}
use theta_plus.Execution.Service.Attempt.{IsUntouched, attempt_entry-IsSound, attempt_entry-refused}
use theta_plus.Execution.Service.Restart.{start-IsSound}
use theta_plus.Execution.Service.Agreement.{Agreed, startup_reconcile-Agreed}
use theta_plus.Config
use theta_plus.Execution.Instruments.{resolve, validate_instrument}
use theta_plus.Execution.Gate.{cooldown_active, expiry_valid}
use theta_plus.Execution.Risk.{finite}
use theta_plus.Engine.Signal.{time_filter_reason}
use theta_plus.Clock.{time_of}
use theta_plus.Execution.Models.{OrderRequest}
use theta_plus.Execution.Service.Sending.{IsSent, attempt_entry-IsSent}
use theta_plus.Execution.Service.Entry.{flags, order_request, resolve_leg}
use theta_plus.Examples.Values.{call_contract}
use theta_plus.Engine.Models.{ce}
use theta_plus.Base.Int.{pos}
use theta_plus.Execution.Service.Runs.{done, next, entry, Run-once}
use theta_plus.Examples.Values.{Num, cents, cents_Float, plain_Format, rising, ten_o_clock, setting}
use theta_plus.Examples.States.{
  entry_signal, idle, ready, cancellation, holding, stopped, restarted,
}

ready-IsSound : IsSound ready
unfolding fresh exposure times
ready-IsSound = (refl, λ k. omega arith, tt, λ k. omega arith)

stopped-IsSound : IsSound stopped
unfolding fresh exposure exposed times
stopped-IsSound = (refl, λ k. omega arith, tt, λ k. omega arith)

idle_ok : start setting false [] tt [] ≡ ok idle
unfolding start start_from
idle_ok = refl

restarted_ok : start setting false stopped.journal tt stopped.sent ≡ ok restarted
unfolding start start_from restore refresh_exposure fresh exposure exposed
restarted_ok = refl

abbrev entered : State Num (Unit {0})
entered = (attempt_entry setting (some entry_signal) (some rising) "S1" ten_o_clock none ready).1

abbrev from_idle : State Num (Unit {0})
from_idle = (attempt_entry setting (some entry_signal) (some rising) "S1" ten_o_clock none idle).1

abbrev request : Request Num
request = gate_request setting (some entry_signal) (some rising) "S1" ten_o_clock none ready

Run-once_example :
    ((k : String) → times k from_idle.sent ≤ 1)
    × (from_idle.risk_state.open_positions ≡ exposure from_idle.orders)
Run-once_example = Run-once setting false [] tt idle from_idle idle_ok (
    next idle from_idle from_idle
      (entry (some entry_signal) (some rising) "S1" ten_o_clock none idle) (done from_idle))

can_execute_order_iff_example : ((can_execute_order request).allowed ≡ true) ↔ Permitted request
can_execute_order_iff_example = can_execute_order_iff request

attempt_entry-IsSound_example : IsSound entered
attempt_entry-IsSound_example =
    attempt_entry-IsSound setting (some entry_signal) (some rising) "S1" ten_o_clock none ready
      ready-IsSound

idle_refused : ¬ Permitted (
    gate_request setting
      (some entry_signal)
      (some rising)
      "S1"
      ten_o_clock
      none
      (roll_day (date_of ten_o_clock) idle))
unfolding gate_request roll_day fresh
idle_refused p = let r = p.reconciled in cc

attempt_entry-refused_example : IsUntouched from_idle idle
unfolding fresh
attempt_entry-refused_example =
    attempt_entry-refused setting (some entry_signal) (some rising) "S1" ten_o_clock none idle
      idle_refused

start-IsSound_example : IsSound restarted
start-IsSound_example =
    start-IsSound setting false stopped restarted tt stopped-IsSound restarted_ok

holding_agreed : (startup_reconcile setting holding).0 ≡ ok agreed
unfolding startup_reconcile reconcile_configured refresh_all to_refresh unresolved settle
    any_unresolved compare_positions compared log_event reconcile open_positions expected_book
    open_only expected_from add ◌+ℤ◌ same_book included get same_contract actual_book tally_from
holding_agreed = refl

startup_reconcile-Agreed_example : Agreed setting (startup_reconcile setting holding).1
startup_reconcile-Agreed_example = startup_reconcile-Agreed setting holding holding_agreed

abbrev completion : BrokerOrderState Num
completion = record cancellation { broker_status = "TRADED"; filled_quantity = pos 75 }

abbrev no_risk : RiskState Num
no_risk = record {
  trades_today = 0;
  open_positions = 0;
  realized_pnl_today = cents (pos 0);
  locked = false;
}

abbrev price : Option Num
price = some (cents (pos 12050))

abbrev call_key : Contract
call_key = record { segment = "NSE_FNO"; security_id = "45001"; product_type = "INTRADAY" }

abbrev put_key : Contract
put_key = record { segment = "NSE_FNO"; security_id = "45002"; product_type = "INTRADAY" }

abbrev call_then_put : Book
call_then_put = (call_key, pos 75) ∷ (put_key, pos 0) ∷ []

abbrev put_then_call : Book
put_then_call = (put_key, pos 0) ∷ (call_key, pos 75) ∷ []

ready-request :
    gate_request setting
      (some entry_signal)
      (some rising)
      "S1"
      ten_o_clock
      none
      (roll_day (date_of ten_o_clock) ready)
    ≡ request
unfolding gate_request roll_day fresh flags
ready-request = refl

request-Permitted : Permitted request
unfolding gate_request cooldown_active flags fresh resolve_leg resolve expiry_valid
    validate_instrument price_valid finite loss time_filter_reason time_of ◌+ℤ◌ ◌-ℤ◌ date_of
request-Permitted = record {
  mode = refl;
  live_enabled = refl;
  armed = refl;
  kill_switch_off = refl;
  enabled = refl;
  cooled = refl;
  entry = record { setup = refl; entry_state = refl; healthy = refl };
  features = refl;
  in_session = refl;
  fresh_id = refl;
  unexpired = refl;
  instrument = refl;
  risk = record {
    enabled = refl;
    trades = omega arith;
    positions = omega arith;
    at_least_one = omega arith;
    quantity_capped = omega arith;
    unlocked = refl;
    loss_capped = refl;
    price = refl;
    near = (refl, refl, refl);
  };
  reconciled = refl;
  unblocked = refl;
}

abbrev first_order : OrderRequest Num
first_order = record {
  client_order_id = "PCR-S1";
  signal_id = "S1";
  exchange_segment = "NSE_FNO";
  security_id = "45001";
  transaction_type = buy;
  order_type = limit;
  product_type = intraday;
  validity = Config.day;
  quantity = 75;
  price = cents (pos 12050);
  reference_price = cents (pos 12050);
}

first_order_ok :
    order_request setting request.client_order_id request.signal_id request.instrument_ref
      request.market_price
    ≡ ok first_order
unfolding order_request gate_request client_order_id_for resolve_leg resolve
first_order_ok = refl

attempt_entry-IsSent_example : IsSent setting first_order [] entered
unfolding fresh
attempt_entry-IsSent_example =
    attempt_entry-IsSent setting (some entry_signal) (some rising) "S1" ten_o_clock none ready
      request first_order refl ready-request request-Permitted first_order_ok

call_found : resolve (call_contract ∷ []) "NIFTY" (pos 24500) ce "1970-01-21" ≡ some call_contract
unfolding resolve
call_found = refl
