-- ===== src/Engine/Memory.antt =====
-- backend/engines/signal_memory.py: the runtime state of the signal. `snapshot` copies every field,
-- so the memory and the snapshot that the evaluator reads are one record.
pub mod Laws
use theta_plus.Base.{
  ℕ, ◌+◌, ◌*◌, Bool, true, false, ◌&&◌, Option, none, some, if◌then◌else◌, elem, String, List,
}
use theta_plus.Base.Raises.{Raises, ok, raised, ◌>>=◌}
use theta_plus.Clock.{Timestamp, plus_minutes}
use theta_plus.Engine.Models.{
  SignalState, wait, watch, entry_candidate, active, invalidated, target, stoploss, expired, Side,
  Decision, waiting, ce_setup, pe_setup, ce_invalidated, pe_invalidated, side_of, SignalDecision,
}
use theta_plus.Engine.StateMachine.{transition, same_state}

pub record SignalMemory (F : Type 0) : Type 0 where
  pub state : SignalState
  pub current_side : Option Side
  pub signal_timestamp : Option Timestamp
  pub cooldown_until : Option Timestamp
  pub signal_pcr : Option F
  pub last_decision : Option Decision

-- `SignalMemory()`, and `reset`
abbrev pub fresh : {F : Type 0} → SignalMemory F
fresh = record {
  state = wait;
  current_side = none;
  signal_timestamp = none;
  cooldown_until = none;
  signal_pcr = none;
  last_decision = none;
}

-- `state in (INVALIDATED, TARGET, STOPLOSS, EXPIRED)`
abbrev pub is_exit : SignalState → Bool
is_exit invalidated = true
is_exit target = true
is_exit stoploss = true
is_exit expired = true
is_exit _ = false

-- The table `ramp`; a state that it lacks stays.
abbrev pub ramp : SignalState → Option SignalState
ramp wait = some watch
ramp watch = some entry_candidate
ramp entry_candidate = some active
ramp _ = none

-- `if state in ramp: state = transition(state, ramp[state])`
unfoldable pub advance : SignalState → Raises SignalState
advance s = elim (ramp s) [ none ↦ ok s | some t ↦ transition s t ]

module _ {F : Type 0} where
  -- Recovery from the exit states.
  recover : SignalMemory F → Raises (SignalMemory F)
  recover m =
      if is_exit m.state
      then (do
        s ← transition m.state wait
        ok (record m {
          state = s;
          current_side = none;
          signal_timestamp = none;
          cooldown_until = none;
          signal_pcr = none;
        }))
      else ok m

  -- An invalidation ends an active signal only.
  apply_invalidation : Decision → SignalMemory F → Raises (SignalMemory F)
  apply_invalidation d m =
      if same_state m.state active
      then (do
        s ← transition m.state invalidated
        ok (record m { state = s; last_decision = some d }))
      else ok (record m { last_decision = some d })

  -- A setup advances the ramp by one step and restarts the cooldown, whose end may be out of range.
  apply_setup : Decision → Option F → Timestamp → ℕ → SignalMemory F → Raises (SignalMemory F)
  unfolding advance
  apply_setup d pcr now cooldown_minutes m = do
    s ← advance m.state
    until ← plus_minutes now cooldown_minutes
    ok (record m {
      state = s;
      current_side = some (side_of d);
      signal_timestamp = some now;
      cooldown_until = some until;
      signal_pcr = pcr;
      last_decision = some d;
    })

  -- The end of the session expires an active signal, if the reasons hold the bare code.
  apply_wait : List String → SignalMemory F → Raises (SignalMemory F)
  apply_wait reasons m =
      if same_state m.state active && elem "TIME_FILTER_AFTER_END" reasons
      then (do
        s ← transition m.state expired
        ok (record m { state = s; last_decision = some waiting }))
      else ok (record m { last_decision = some waiting })

  unfoldable pub apply : SignalMemory F → SignalDecision F → Timestamp → ℕ → Raises (SignalMemory F)
  unfolding recover apply_invalidation apply_setup apply_wait
  apply m decision now cooldown_minutes = elim decision.decision [
    | ce_setup ↦ apply_setup ce_setup decision.pcr now cooldown_minutes m
    | pe_setup ↦ apply_setup pe_setup decision.pcr now cooldown_minutes m
    | waiting ↦ do m' ← recover m; apply_wait decision.reasons m'
    | ce_invalidated ↦ apply_invalidation ce_invalidated m
    | pe_invalidated ↦ apply_invalidation pe_invalidated m
  ]

  -- What an OverflowError in `apply` leaves behind: the fields that were set before the cooldown.
  abbrev interrupted_setup :
      Decision → Timestamp → SignalMemory F → Raises SignalState → SignalMemory F
  interrupted_setup d now m (raised e) = m
  interrupted_setup d now m (ok s) = record m {
    state = s;
    current_side = some (side_of d);
    signal_timestamp = some now;
  }

  unfoldable pub interrupted : SignalMemory F → SignalDecision F → Timestamp → SignalMemory F
  interrupted m decision now = elim decision.decision [
    | ce_setup ↦ interrupted_setup ce_setup now m (advance m.state)
    | pe_setup ↦ interrupted_setup pe_setup now m (advance m.state)
    | waiting ↦ m
    | ce_invalidated ↦ m
    | pe_invalidated ↦ m
  ]
