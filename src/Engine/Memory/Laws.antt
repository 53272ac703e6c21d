-- ===== src/Engine/Memory/Laws.antt =====
-- What `SignalMemory.apply` (backend/engines/signal_memory.py) keeps: no illegal transition, the
-- fields that go with each state, the way into ACTIVE.
use theta_plus.Base.{ℕ, ◌+◌, ◌*◌, ◌<◌, ◌≡◌, ◌≢◌, ◌⊎◌, true, none, is_some, arith}
use theta_plus.Base.Raises.{ok, Returns, Returns-of}
use theta_plus.Clock.{Timestamp, minute, end_of_time, plus_minutes-ok}
use theta_plus.Engine.Models.{wait, entry_candidate, active, is_setup, SignalDecision}
use theta_plus.Engine.Memory.{SignalMemory, fresh, apply, advance}
use theta_plus.Engine.StateMachine.{transition}

-- A waiting memory is empty, and any other state has its side, time and cooldown.
pub record IsValid {F : Type 0} (m : SignalMemory F) : Type 0 where
  pub idle_side : m.state ≡ wait → m.current_side ≡ none
  pub idle_time : m.state ≡ wait → m.signal_timestamp ≡ none
  pub idle_cooldown : m.state ≡ wait → m.cooldown_until ≡ none
  pub busy_side : m.state ≢ wait → is_some m.current_side ≡ true
  pub busy_time : m.state ≢ wait → is_some m.signal_timestamp ≡ true
  pub busy_cooldown : m.state ≢ wait → is_some m.cooldown_until ≡ true

pub fresh-IsValid : {F : Type 0} → IsValid {F = F} fresh
fresh-IsValid = ground arith

module _ {F : Type 0} (m : SignalMemory F) (d : SignalDecision F) (now : Timestamp)
    (cooldown : ℕ) where
  -- `apply` raises no IllegalTransitionError: in every state, every decision leads to a new memory, as
  -- long as the cooldown ends before the end of time.
  pub apply_total : now + cooldown * minute < end_of_time → Returns (apply m d now cooldown)
  unfolding apply transition advance
  apply_total h = let ends = plus_minutes-ok now cooldown h in Returns-of _ (λ e. ground arith)

  -- Every memory that `apply` returns on a valid one is valid.
  pub apply-IsValid :
      {m' : SignalMemory F} → IsValid m → apply m d now cooldown ≡ ok m' → IsValid m'
  unfolding apply transition advance
  apply-IsValid v e = ground arith

  -- ACTIVE is entered from ENTRY_CANDIDATE alone, by a setup.
  pub apply-active :
      {m' : SignalMemory F}
      → apply m d now cooldown ≡ ok m'
      → m'.state ≡ active
      → (m.state ≡ active) ⊎ (m.state ≡ entry_candidate) × (is_setup d.decision ≡ true)
  unfolding apply transition advance
  apply-active e a = ground arith
