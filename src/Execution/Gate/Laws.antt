-- ===== src/Execution/Gate/Laws.antt =====
-- What an approval of the gate (backend/execution/gate.py) means.
use theta_plus.Base.{
  ◌≡◌, ◌↔◌, Bool, true, false, Option, none, some, String, [], ◌∷◌, ◌++◌, arith, &&-true, elem,
  is_some,
}
use theta_plus.Base.Float.{Float, Format}
use theta_plus.Config.{live}
use theta_plus.Market.{HealthCode}
use theta_plus.Engine.Models.{SignalDecision, is_setup}
use theta_plus.Engine.Signal.{time_filter_reason}
use theta_plus.Execution.Models.{Reason, agreed, Checks, ExecutionDecision}
use theta_plus.Execution.Instruments.{validate_instrument}
use theta_plus.Execution.Risk
use theta_plus.Execution.Risk.Laws
use theta_plus.Execution.Risk.Laws.{WithinLimits}
use theta_plus.Execution.Gate.{
  Request, can_execute_order, cooldown_active, demand, has_security_id, entry_setup, state_permits,
  health_ok, check_reconciliation, check_order, check_signal, is_entry_state, expiry_valid,
}

module _ {F : Type 0} ⦃fl : Float F⦄ ⦃fm : Format F⦄ (r : Request F) where
  -- The signal is a fresh entry setup on healthy data.
  pub record IsEntry (d : SignalDecision F) : Type 0 where
    pub setup : is_setup d.decision ≡ true
    pub entry_state : is_entry_state d.state ≡ true
    pub healthy : d.data_health ≡ HealthCode.healthy

  abbrev pub HasEntry : Option (SignalDecision F) → Type 0
  HasEntry none = ⊥
  HasEntry (some d) = IsEntry d

  -- All that a submission takes.
  pub record Permitted : Type 0 where
    pub mode : r.flags.mode ≡ live
    pub live_enabled : r.flags.live_execution_enabled ≡ true
    pub armed : r.flags.live_execution_armed ≡ true
    pub kill_switch_off : r.flags.kill_switch_on ≡ false
    pub enabled : r.config.enabled ≡ true
    pub cooled : cooldown_active r.decision r.signal_cooldown_until r.now ≡ false
    pub entry : HasEntry r.decision
    pub features : is_some r.features ≡ true
    pub in_session : time_filter_reason r.now r.config ≡ none
    pub fresh_id : elem r.client_order_id r.existing_client_order_ids ≡ false
    pub unexpired : expiry_valid fm r.instrument_ref r.now ≡ true
    pub instrument : validate_instrument r.instrument_ref r.quantity r.market_price ≡ true
    pub risk : WithinLimits r.config r.risk_state r.quantity r.reference_price r.market_price
    pub reconciled : r.report.state ≡ agreed
    pub unblocked : r.report.blocks_execution ≡ false

  demand-allowed :
      (name : String) (passed : Bool) (reason : Reason) (checks : Checks)
      (rest : Checks → ExecutionDecision)
      → (demand r name passed reason checks rest).allowed ≡ true
      → (passed ≡ true) × ((rest (checks ++ (name, true) ∷ [])).allowed ≡ true)
  unfolding demand
  demand-allowed name passed reason checks rest h = ground arith

  allowed-demand :
      (name : String) (passed : Bool) (reason : Reason) (checks : Checks)
      (rest : Checks → ExecutionDecision)
      → passed ≡ true
      → (rest (checks ++ (name, true) ∷ [])).allowed ≡ true
      → (demand r name passed reason checks rest).allowed ≡ true
  unfolding demand
  allowed-demand name passed reason checks rest p h = ground arith

  reconciliation_iff :
      (checks : Checks)
      → ((check_reconciliation r checks).allowed ≡ true)
        ↔ ((r.report.state ≡ agreed) × (r.report.blocks_execution ≡ false))
  unfolding check_reconciliation demand
  reconciliation_iff checks = (λ h. ground arith, λ h. ground arith)

  -- The last two stages in one condition.
  abbrev OrderOk : Type 0
  OrderOk =
      (expiry_valid fm r.instrument_ref r.now ≡ true)
      × (validate_instrument r.instrument_ref r.quantity r.market_price ≡ true)
      × ((Risk.evaluate r.config r.risk_state r.quantity r.reference_price r.market_price).allowed
          ≡ true)
      × (r.report.state ≡ agreed)
      × (r.report.blocks_execution ≡ false)

  validate_instrument-id :
      validate_instrument r.instrument_ref r.quantity r.market_price ≡ true
      → has_security_id r.instrument_ref ≡ true
  unfolding validate_instrument
  validate_instrument-id h = ground arith

  order_iff : (checks : Checks) → ((check_order r checks).allowed ≡ true) ↔ OrderOk
  unfolding check_order demand
  order_iff checks = (
    λ h. grind (arith, reconciliation_iff),
    λ h. grind (arith, reconciliation_iff, validate_instrument-id h.1),
  )

  abbrev SignalOk : Type 0
  SignalOk =
      (cooldown_active r.decision r.signal_cooldown_until r.now ≡ false)
      × HasEntry r.decision
      × (is_some r.features ≡ true)
      × (time_filter_reason r.now r.config ≡ none)
      × (elem r.client_order_id r.existing_client_order_ids ≡ false)

  entry-HasEntry :
      entry_setup r.decision ≡ true
      → state_permits r.decision ≡ true
      → health_ok r.decision ≡ true
      → HasEntry r.decision
  entry-HasEntry s p h = ground arith

  HasEntry-entry :
      HasEntry r.decision
      → (entry_setup r.decision ≡ true)
        × (state_permits r.decision ≡ true)
        × (health_ok r.decision ≡ true)
  HasEntry-entry e = ground arith

  signal_to : (checks : Checks) → (check_signal r checks).allowed ≡ true → SignalOk × OrderOk
  unfolding check_signal
  signal_to checks h =
      let (cooled, h1) = demand-allowed _ _ _ _ _ h in
      let (setup, h2) = demand-allowed _ _ _ _ _ h1 in
      let (state, h3) = demand-allowed _ _ _ _ _ h2 in
      let (health, h4) = demand-allowed _ _ _ _ _ h3 in
      let (window, h5) = demand-allowed _ _ _ _ _ h4 in
      let (unique, h6) = demand-allowed _ _ _ _ _ h5 in
      let (healthy, features) = &&-true _ _ health in
      (
        (ground arith, entry-HasEntry setup state healthy, features, ground arith, ground arith),
        (order_iff _).0 h6,
      )

  signal_from : (checks : Checks) → SignalOk → OrderOk → (check_signal r checks).allowed ≡ true
  unfolding check_signal
  signal_from checks (cooled, entry, features, window, unique) o =
      let (setup, state, health) = HasEntry-entry entry in
      allowed-demand _ _ _ _ _ (ground arith) (
        allowed-demand _ _ _ _ _ setup (
          allowed-demand _ _ _ _ _ state (
            allowed-demand _ _ _ _ _ (ground arith) (
              allowed-demand _ _ _ _ _ (ground arith)
                (allowed-demand _ _ _ _ _ (ground arith) ((order_iff _).1 o))))))

  Permitted_of_allowed : (can_execute_order r).allowed ≡ true → Permitted
  unfolding can_execute_order
  Permitted_of_allowed h =
      let (mode, h1) = demand-allowed _ _ _ _ _ h in
      let (live_on, h2) = demand-allowed _ _ _ _ _ h1 in
      let (armed, h3) = demand-allowed _ _ _ _ _ h2 in
      let (unkilled, h4) = demand-allowed _ _ _ _ _ h3 in
      let (enabled, h5) = demand-allowed _ _ _ _ _ h4 in
      let (signal, order) = signal_to _ h5 in
      record {
        mode = ground arith;
        live_enabled = live_on;
        armed = armed;
        kill_switch_off = ground arith;
        enabled = enabled;
        cooled = signal.0;
        entry = signal.1;
        features = signal.2;
        in_session = signal.3;
        fresh_id = signal.4;
        unexpired = order.0;
        instrument = order.1;
        risk =
            (Laws.evaluate_iff r.config r.risk_state r.quantity r.reference_price r.market_price).0
              order.2;
        reconciled = order.3;
        unblocked = order.4;
      }

  allowed_of_Permitted : Permitted → (can_execute_order r).allowed ≡ true
  unfolding can_execute_order
  allowed_of_Permitted p = allowed-demand _ _ _ _ _ (ground arith) (
      allowed-demand _ _ _ _ _ p.live_enabled (
        allowed-demand _ _ _ _ _ p.armed (
          allowed-demand _ _ _ _ _ (ground arith) (
            allowed-demand _ _ _ _ _ p.enabled (
              signal_from _ (p.cooled, p.entry, p.features, p.in_session, p.fresh_id)
                (
                  p.unexpired,
                  p.instrument,
                  (Laws.evaluate_iff r.config r.risk_state r.quantity r.reference_price
                        r.market_price).1
                      p.risk,
                  p.reconciled,
                  p.unblocked,
                ))))))

  -- The gate authorises exactly the requests that are permitted: live mode, enabled and armed, no
  -- kill switch, no cooldown, a fresh entry setup on healthy data inside the session, a new client
  -- order id, an unexpired and valid instrument, every risk limit kept, and the broker reconciled.
  pub can_execute_order_iff : ((can_execute_order r).allowed ≡ true) ↔ Permitted
  can_execute_order_iff = (Permitted_of_allowed, allowed_of_Permitted)
