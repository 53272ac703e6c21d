-- ===== src/Examples/States.antt =====
-- Test data: a signal, orders, and states of the execution service.
use theta_plus.Base.{true, false, none, some, [], ◌∷◌}
use theta_plus.Base.Int.{pos}
use theta_plus.Config.{limit, intraday}
use theta_plus.Market.{HealthCode}
use theta_plus.Engine.Models.{watch, ce, ce_setup, SignalDecision}
use theta_plus.Execution.Models.{
  buy, agreed, filled, partially_filled, OrderRecord, BrokerOrderState,
}
use theta_plus.Execution.Reconciliation.{pending_report}
use theta_plus.Execution.Service.State.{State}
use theta_plus.Execution.Service.Orders.{snapshot}
use theta_plus.Execution.Service.Startup.{fresh}
use theta_plus.Examples.Values.{Num, cents, cents_Float, plain_Format, ten_o_clock, setting}

abbrev pub entry_signal : SignalDecision Num
entry_signal = record {
  timestamp = ten_o_clock;
  symbol = "NIFTY";
  decision = ce_setup;
  state = watch;
  ce_score = pos 100;
  pe_score = pos 10;
  ce_max_score = pos 100;
  pe_max_score = pos 100;
  qualifying_side = some ce;
  reasons = [];
  ce_rules = [];
  pe_rules = [];
  atm = pos 24500;
  spot = cents (pos 2450500);
  vwap = none;
  pcr = none;
  pcr_trend = none;
  strategy_version = "1";
  feature_engine_version = "1";
  config_version = "1";
  data_health = HealthCode.healthy;
  cooldown_until = none;
}

-- The state after the first start, and after a reconciliation that found nothing.
abbrev pub idle : State Num (Unit {0})
idle = fresh (cents (pos 0)) false [] tt []

abbrev pub ready : State Num (Unit {0})
ready = record idle {
  report = record {
    state = agreed;
    internal_open_positions = 0;
    broker_open_positions = 0;
    unexpected_broker_positions = [];
    blocks_execution = false;
  };
}

abbrev pub filled_order : OrderRecord Num
filled_order = record {
  client_order_id = "PCR-S1";
  signal_id = "S1";
  broker_order_id = some "B1";
  broker_status = some "TRADED";
  broker_confirmed = true;
  status = filled;
  security_id = "45001";
  exchange_segment = "NSE_FNO";
  transaction_type = buy;
  product_type = intraday;
  order_type = limit;
  requested_quantity = pos 75;
  filled_quantity = pos 75;
  remaining_quantity = pos 0;
  requested_price = cents (pos 12050);
  average_fill_price = some (cents (pos 12050));
  error_code = "";
}

abbrev pub half_filled : OrderRecord Num
half_filled = record filled_order { status = partially_filled; filled_quantity = pos 30 }

abbrev pub cancellation : BrokerOrderState Num
cancellation = record {
  broker_order_id = "B1";
  broker_status = "CANCELLED";
  filled_quantity = pos 20;
  remaining_quantity = pos 0;
  average_traded_price = none;
  error_code = "";
}

abbrev pub holding : State Num (Unit {0})
holding = record ready {
  orders = ("PCR-S1", filled_order) ∷ [];
  risk_state = record {
    trades_today = 1;
    open_positions = 1;
    realized_pnl_today = cents (pos 0);
    locked = false;
  };
}

abbrev pub stopped : State Num (Unit {0})
stopped = record holding { journal = snapshot setting holding ∷ [] }

abbrev pub restarted : State Num (Unit {0})
restarted = record stopped { report = pending_report 0 }
