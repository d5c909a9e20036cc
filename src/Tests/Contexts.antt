-- ===== src/Tests/Contexts.antt =====
-- The contexts, the states of the driver and capable() on concrete inputs.
use driver_optimizer.Prelude.{◌≡◌, ◌↔◌, ◌⊎◌, ◌+◌, ltb, if◌then◌else◌, true, false, pos, arith}
use driver_optimizer.Action.{ok, stop, out_of_bounds, assertion, ◌>>◌}
use driver_optimizer.State.{
  GlobalState, blocking_yes, blocking_no, user_yes, user_no, max_nesting, not_called, in_progress,
  called_ok,
}
use driver_optimizer.KernelState.{push_blocking_state, push_user_state}
use driver_optimizer.KernelState.Stack.{push_full, Restores, blocking_pushed, user_pushed}
use driver_optimizer.KernelState.Nesting.{Calls, call, none_left, run_calls, run_calls-Restores}
use driver_optimizer.DriverState.{set_call_state}
use driver_optimizer.DriverState.Calls.{CallStep, set_call_state_iff}
use driver_optimizer.Capable.{CapableState, call_capable, capable_ends_path}
use driver_optimizer.KernelState.Stack.{
  push-implements-append, blocking_stack, user_stack, IsNested, SameRest,
}
use driver_optimizer.Prelude.{[], ◌∷◌, ◌++◌}
use driver_optimizer.Hashtable.Assoc.{assoc}
use driver_optimizer.Tests.{start, start-IsNested, Objects}

-- probe, with one call inside
abbrev nested : Calls
nested = call blocking_yes user_no (call blocking_no user_yes none_left none_left) none_left

run_calls-Restores_example :
    (t : GlobalState Objects) × (run_calls nested start ≡ ok (tt, t)) × Restores start t
run_calls-Restores_example =
    run_calls-Restores nested start start-IsNested (omega arith) (omega arith)

push_full_example :
    (push_blocking_state blocking_no start ≡ (
      if ltb (start.blocking_context_current + 1) max_nesting
      then ok (tt, blocking_pushed start blocking_no)
      else stop out_of_bounds))
    × (push_user_state user_yes start ≡ (
        if ltb (start.user_context_current + 1) max_nesting
        then ok (tt, user_pushed start user_yes)
        else stop out_of_bounds))
push_full_example = push_full start blocking_no user_yes start-IsNested

set_call_state_iff_example :
    ((set_call_state called_ok in_progress ≡ ok (tt, called_ok)) ↔ CallStep in_progress called_ok)
    × ((set_call_state called_ok in_progress ≡ ok (tt, called_ok))
        ⊎ (set_call_state called_ok in_progress ≡ stop assertion))
set_call_state_iff_example = set_call_state_iff in_progress called_ok

abbrev unchecked : CapableState
unchecked = record { ioctl_capable_param = pos 0; ioctl_capable_retval = not_called }

capable_ends_path_example :
    (call_capable (pos 0) false (pos 12) >> call_capable (pos 1) true (pos 12)) unchecked
    ≡ stop assertion
capable_ends_path_example = capable_ends_path unchecked false true (pos 12) (pos 12)

push-implements-append_example :
    (t : GlobalState Objects) × (push_blocking_state blocking_no start ≡ ok (tt, t))
    × (blocking_stack t ≡ blocking_stack start ++ blocking_no ∷ [])
    × (user_stack t ≡ user_stack start)
    × IsNested t
    × SameRest start t
push-implements-append_example =
    push-implements-append start blocking_no start-IsNested (omega arith)
