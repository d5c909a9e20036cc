-- ===== src/DriverState/Calls.antt =====
-- set_call_state and set_device_state of gtf/test_state.c against the diagrams of their states.
use driver_optimizer.Prelude.{◌≡◌, ◌⊎◌, ◌↔◌, refl, arith}
use driver_optimizer.Action.{ok, stop, assertion}
use driver_optimizer.State.{
  CallState, not_called, in_progress, called_ok, called_failed, DeviceState, device_state_undefined,
  device_state_disabled, device_state_enabled,
}
use driver_optimizer.DriverState.{set_call_state, set_device_state}

-- The diagram of a call: it starts from any state but its own running, ends in one of two ways,
-- and may be forgotten at any time.
pub data CallStep : CallState → CallState → Type 0 where
  first_start : CallStep not_called in_progress
  start_again : CallStep called_ok in_progress
  start_retry : CallStep called_failed in_progress
  end_ok : CallStep in_progress called_ok
  end_failed : CallStep in_progress called_failed
  forget : {s : CallState} → CallStep s not_called

-- The diagram of a device: the first state is arbitrary, then the two states alternate.
pub data DeviceStep : DeviceState → DeviceState → Type 0 where
  first : {s : DeviceState} → DeviceStep device_state_undefined s
  enable : DeviceStep device_state_disabled device_state_enabled
  disable : DeviceStep device_state_enabled device_state_disabled

ruleset call_steps = (first_start, start_again, start_retry, end_ok, end_failed, forget)

ruleset device_steps = (first, enable, disable)

CallStep-of_ok :
    (s new : CallState) {r : Unit × CallState} → set_call_state new s ≡ ok r → CallStep s new
unfolding set_call_state
CallStep-of_ok s new h = grind (arith, call_steps)

ok_of_CallStep : {s new : CallState} → CallStep s new → set_call_state new s ≡ ok (tt, new)
unfolding set_call_state
ok_of_CallStep {s = s} forget = ground arith
ok_of_CallStep _ = refl

call_returns_or_asserts :
    (s new : CallState)
    → (set_call_state new s ≡ ok (tt, new)) ⊎ (set_call_state new s ≡ stop assertion)
unfolding set_call_state
call_returns_or_asserts s new = ground arith

-- set_call_state follows the diagram of a call: it returns exactly on the steps of the diagram,
-- and then the state is the new one; where it does not return, it ends the path by an assertion.
pub set_call_state_iff :
    (s new : CallState)
    → ((set_call_state new s ≡ ok (tt, new)) ↔ CallStep s new)
      × ((set_call_state new s ≡ ok (tt, new)) ⊎ (set_call_state new s ≡ stop assertion))
set_call_state_iff s new = ((CallStep-of_ok s new, ok_of_CallStep), call_returns_or_asserts s new)

DeviceStep-of_ok :
    (s new : DeviceState) {r : Unit × DeviceState}
    → set_device_state new s ≡ ok r
    → DeviceStep s new
unfolding set_device_state
DeviceStep-of_ok s new h = grind (arith, device_steps)

ok_of_DeviceStep : {s new : DeviceState} → DeviceStep s new → set_device_state new s ≡ ok (tt, new)
unfolding set_device_state
ok_of_DeviceStep first = refl
ok_of_DeviceStep enable = refl
ok_of_DeviceStep disable = refl

device_returns_or_asserts :
    (s new : DeviceState)
    → (set_device_state new s ≡ ok (tt, new)) ⊎ (set_device_state new s ≡ stop assertion)
unfolding set_device_state
device_returns_or_asserts s new = ground arith

-- set_device_state follows the diagram of a device: it returns exactly on the steps of the diagram,
-- and then the state is the new one; where it does not return, it ends the path by an assertion.
set_device_state_iff :
    (s new : DeviceState)
    → ((set_device_state new s ≡ ok (tt, new)) ↔ DeviceStep s new)
      × ((set_device_state new s ≡ ok (tt, new)) ⊎ (set_device_state new s ≡ stop assertion))
set_device_state_iff s new =
    ((DeviceStep-of_ok s new, ok_of_DeviceStep), device_returns_or_asserts s new)
