-- ===== src/Execution/Service/Entry.antt =====
-- backend/execution/service.py: `attempt_entry`, the one path to `adapter.submit_order`. The lock
-- around it makes a call atomic against other entries.
use Prim.Native.String.{◌++◌}
use theta_plus.Base.{
  ℕ, Bool, true, false, not, ◌&&◌, ◌||◌, Option, none, some, String, if◌then◌else◌, truthy, ◌==◌,
}
use theta_plus.Base.Float.{Float, Format}
use theta_plus.Base.Dict.{keys}
use theta_plus.Base.Raises.{Raises, ok, raised, type_error, validation_error}
use theta_plus.Base.Effects.{M, pure, raise, modify, gets, ◌>>=◌, ◌>>◌}
use theta_plus.Clock.{Timestamp, date_of}
use theta_plus.Config.{OrderType, limit}
use theta_plus.Market.{MarketFeatures, OptionQuote}
use theta_plus.Engine.Models.{Side, ce, pe, side_of, SignalDecision}
use theta_plus.Execution.Models.{buy, OrderRequest, InstrumentRef, ExecutionDecision}
use theta_plus.Execution.Instruments.{resolve}
use theta_plus.Execution.Gate.{ExecutionFlags, Request, can_execute_order}
use theta_plus.Execution.Service.State.{State, Setting, log_event}
use theta_plus.Execution.Service.Submit.{submit}

abbrev quote_of : {F : Type 0} → Side → MarketFeatures F → Option (OptionQuote F)
quote_of ce f = f.atm.atm_ce
quote_of pe f = f.atm.atm_pe

abbrev ltp_of : {F : Type 0} → Option (OptionQuote F) → Option F
ltp_of none = none
ltp_of (some q) = some q.ltp

-- `a if a is not None else b`
abbrev first_of : {A : Type 0} → Option A → Option A → Option A
first_of none b = b
first_of (some a) b = some a

abbrev is_limit : OrderType → Bool
is_limit limit = true
is_limit _ = false

module _ {F W : Type 0} (set : Setting F W) where
  -- `client_order_id_for`
  unfoldable pub client_order_id_for : String → String
  client_order_id_for signal_id = "PCR-" ++ set.digest signal_id

  -- `_resolve`: the last price and the instrument of the leg.
  unfoldable pub resolve_leg :
      Option (SignalDecision F) → Option (MarketFeatures F) → Option F × Option InstrumentRef
  resolve_leg (some d) (some f) =
      let side = side_of d.decision in
      (
        ltp_of (quote_of side f),
        if truthy f.expiry
            then resolve set.instruments "NIFTY" f.atm.atm_strike side f.expiry
            else none,
      )
  resolve_leg _ _ = (none, none)

  -- The property `flags`
  unfoldable pub flags : State F W → ExecutionFlags
  flags s = record {
    mode = set.config.system_mode;
    live_execution_enabled =
        set.config.live_execution_enabled
        && set.env_live_enabled
        && (not set.adapter_is_dhan || set.journal_durable);
    live_execution_armed = set.config.live_execution_armed && set.env_live_armed;
    kill_switch_on = s.kill_switch;
  }

abbrev pub is_other_day : Option ℕ → ℕ → Bool
is_other_day none day = false
is_other_day (some old) day = not (old == day)

module _ {F W : Type 0} ⦃fl : Float F⦄ where
  -- A new day clears the counters of the last one.
  unfoldable pub roll_day : ℕ → State F W → State F W
  roll_day day s =
      let risk = s.risk_state in
      if is_other_day s.risk_day day
      then record s {
        risk_state = record risk {
          trades_today = 0;
          realized_pnl_today = fl.nought;
          locked = false;
        };
        risk_day = some day;
      }
      else record s { risk_day = some day }

module _ {F W : Type 0} ⦃fl : Float F⦄ ⦃fm : Format F⦄ (set : Setting F W) where
  unfoldable pub gate_request :
      Option (SignalDecision F)
      → Option (MarketFeatures F)
      → String
      → Timestamp
      → Option F
      → State F W
      → Request F
  gate_request decision features signal_id now reference_price s =
      let (ltp, ref) = resolve_leg set decision features in
      record {
        config = set.config;
        flags = flags set s;
        decision = decision;
        features = features;
        instrument_ref = ref;
        quantity = set.config.live_quantity;
        reference_price = first_of reference_price ltp;
        market_price = ltp;
        risk_state = s.risk_state;
        report = s.report;
        existing_client_order_ids = keys s.orders;
        client_order_id = client_order_id_for set signal_id;
        signal_id = signal_id;
        signal_cooldown_until = elim decision [ none ↦ none | some d ↦ d.cooldown_until ];
        now = now;
      }

  -- The validators of `OrderRequest` that do not hold of the configuration already.
  unfoldable pub order_request :
      String → String → Option InstrumentRef → Option F → Raises (OrderRequest F)
  order_request coid signal_id (some ref) (some ltp) =
      let price = fl.round2 ltp in
      if truthy (fm.strip ref.security_id)
      then ok (record {
        client_order_id = coid;
        signal_id = signal_id;
        exchange_segment = ref.exchange_segment;
        security_id = ref.security_id;
        transaction_type = buy;
        order_type = set.config.live_order_type;
        product_type = set.config.live_product_type;
        validity = set.config.live_validity;
        quantity = set.config.live_quantity;
        price = if is_limit set.config.live_order_type then price else fl.nought;
        reference_price = price;
      })
      else raised validation_error
  order_request coid signal_id _ _ = raised type_error

module _ {F W : Type 0} where
  unfoldable pub block : ExecutionDecision → M (State F W) ExecutionDecision
  block verdict = do
    modify (λ s. record s { last_block_reason = some verdict.reason })
    log_event "EXECUTION_BLOCKED" verdict.client_order_id (some verdict.reason)
    pure verdict

module _ {F W : Type 0} ⦃fl : Float F⦄ ⦃fm : Format F⦄ (set : Setting F W) where
  unfoldable pub place :
      ExecutionDecision → Raises (OrderRequest F) → M (State F W) ExecutionDecision
  place verdict (raised e) = raise e
  place verdict (ok order) = do
    log_event "EXECUTION_APPROVED" verdict.client_order_id none
    _ ← submit set order
    pure verdict

  -- What follows the verdict of the gate.
  unfoldable pub act : Request F → M (State F W) ExecutionDecision
  act r =
      let verdict = can_execute_order r in
      if verdict.allowed
      then place verdict
          (order_request set r.client_order_id r.signal_id r.instrument_ref r.market_price)
      else block verdict

  -- `_attempt_entry`
  unfoldable pub attempt_entry :
      Option (SignalDecision F)
      → Option (MarketFeatures F)
      → String
      → Timestamp
      → Option F
      → M (State F W) ExecutionDecision
  attempt_entry decision features signal_id now reference_price = do
    modify (roll_day (date_of now))
    request ← gets (gate_request set decision features signal_id now reference_price)
    act request
