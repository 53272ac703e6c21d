-- ===== src/Engine/StateMachine.antt =====
-- backend/engines/state_machine.py: the state graph and the checked transition.
use theta_plus.Base.{Bool, true, false, if◌then◌else◌}
use theta_plus.Base.Raises.{Raises, ok, raised, illegal_transition}
use theta_plus.Engine.Models.{
  SignalState, wait, watch, entry_candidate, active, invalidated, target, stoploss, expired,
}

abbrev pub same_state : SignalState → SignalState → Bool
same_state wait wait = true
same_state watch watch = true
same_state entry_candidate entry_candidate = true
same_state active active = true
same_state invalidated invalidated = true
same_state target target = true
same_state stoploss stoploss = true
same_state expired expired = true
same_state _ _ = false

-- `target in VALID_TRANSITIONS[current]`
abbrev pub valid_transition : SignalState → SignalState → Bool
valid_transition wait watch = true
valid_transition watch entry_candidate = true
valid_transition watch wait = true
valid_transition entry_candidate active = true
valid_transition entry_candidate wait = true
valid_transition active invalidated = true
valid_transition active target = true
valid_transition active stoploss = true
valid_transition active expired = true
valid_transition invalidated wait = true
valid_transition target wait = true
valid_transition stoploss wait = true
valid_transition expired wait = true
valid_transition _ _ = false

unfoldable pub transition : SignalState → SignalState → Raises SignalState
transition current goal =
    if same_state current goal
    then ok current
    else (if valid_transition current goal then ok goal else raised illegal_transition)
