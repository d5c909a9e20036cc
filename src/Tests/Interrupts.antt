-- ===== src/Tests/Interrupts.antt =====
-- Interrupt requests on concrete inputs.
use driver_optimizer.Prelude.{
  ◌*◌, ◌+◌, ◌≤◌, ◌≡◌, refl, ℕ, [], ◌∷◌, some, pos, ltb, is_none, if◌then◌else◌, length, arith, inl,
  All,
}
use driver_optimizer.Action.{Action, ok, stop, assertion, out_of_bounds, pure, ◌>>◌}
use driver_optimizer.Framework.{Framework, IrqState, IrqStruct}
use driver_optimizer.Irq.{reset_one, requested, request_threaded_irq, free_irq, name_size}
use driver_optimizer.Irq.Handlers.{interrupt_handler, call_interrupt_handlers}
use driver_optimizer.Irq.Requests.{IsSlot, in_use, with_request, request_lem, free-request}
use driver_optimizer.Irq.Counted.{request, run, IsCounted, run-IsCounted}
use driver_optimizer.Irq.Rate.{quiet, at, turns, times, counter_after, calls_in, turns_lem}
use driver_optimizer.Irq.Masked.{call-entered}
use driver_optimizer.KernelState.Stack.{blocking_pushed, user_pushed}
use driver_optimizer.State.{GlobalState, blocking_no, user_yes}
use driver_optimizer.Hashtable.Assoc.{assoc}
use driver_optimizer.Tests.{start, Objects, caller, loaded}

-- no request, and a table of three lines
abbrev no_requests : IrqState
no_requests = record {
  sym_irq = reset_one ∷ reset_one ∷ [];
  sym_num_requests = 0;
  sym_irq_ongoing = 0;
  sym_irq_lines = some (0 ∷ 0 ∷ 0 ∷ []);
  called_before = 0;
}

no_requests-IsSlot : All IsSlot no_requests.sym_irq
no_requests-IsSlot = (inl refl, (inl refl, tt))

request_lem_example : request_threaded_irq (pos 1) 0 11 4096 0 caller 8192 no_requests ≡ (
    if ltb (in_use no_requests.sym_irq) (length no_requests.sym_irq)
    then (if ltb (length caller) name_size
        then (if is_none no_requests.sym_irq_lines
            then stop assertion
            else ok (tt, with_request no_requests 11 4096 0 caller 8192))
        else stop out_of_bounds)
    else stop assertion)
request_lem_example = request_lem no_requests 11 4096 0 caller 8192 no_requests-IsSlot

free-request_example :
    (request_threaded_irq (pos 1) 0 11 4096 0 caller 8192 >> free_irq (pos 0) 11 8192) no_requests
    ≡ ok (tt, no_requests)
free-request_example =
    free-request no_requests 11 4096 0 caller 8192 no_requests-IsSlot (refl, (refl, tt))
      (omega arith) (omega arith) refl refl

abbrev one_request : IrqState
one_request = with_request no_requests 11 4096 0 caller 8192

requested_once : run (request (pos 1) 0 11 4096 0 caller 8192) no_requests ≡ ok (tt, one_request)
unfolding request_threaded_irq
requested_once = refl

run-IsCounted_example : IsCounted one_request
run-IsCounted_example =
    run-IsCounted (request (pos 1) 0 11 4096 0 caller 8192) no_requests one_request
      (record { slots = no_requests-IsSlot; counted = refl }) requested_once

abbrev framework : Framework Objects
framework = record loaded { irqs = one_request }

-- a handler that does nothing
abbrev idle : ℕ → ℕ → ℕ → Action (Framework Objects) Unit
idle handler number parameter = pure tt

abbrev entry : IrqStruct
entry = requested 11 4096 0 caller 8192

-- a handler that switches the interrupts of the device off
abbrev switches_off : GlobalState Objects → GlobalState Objects
switches_off g = record g { device_irq_disabled = 1 }

turns_lem_example :
    (turns
        (quiet switches_off framework (0 ∷ 0 ∷ 0 ∷ []) 1 entry (omega arith) refl refl)
        1
        entry
        6
        (at switches_off framework (0 ∷ 0 ∷ 0 ∷ []) 1 entry (omega arith) refl refl 0 start)
      ≡ ok (
        tt,
        at switches_off framework
            (0 ∷ 0 ∷ 0 ∷ [])
            1
            entry
            (omega arith)
            refl
            refl
            (counter_after 6 0)
            (times (calls_in 6 0) switches_off start),
      ))
    × (97 * calls_in 6 0 ≤ 6 + 480)
    × (counter_after 6 0 ≤ 100)
turns_lem_example =
    turns_lem switches_off framework (0 ∷ 0 ∷ 0 ∷ []) 1 entry (omega arith) refl refl 6

abbrev in_handler : Framework Objects
in_handler = record framework {
  global_state = user_pushed (blocking_pushed start blocking_no) user_yes;
}

handler_entered : interrupt_handler (pos 0) (pos 0) framework ≡ ok (tt, in_handler)
unfolding interrupt_handler
handler_entered = refl

-- in the handler, the request has been given back
abbrev still_in_handler : Framework Objects
still_in_handler = record in_handler { irqs = no_requests }

call-entered_example : call_interrupt_handlers idle 7 still_in_handler ≡ ok (tt, still_in_handler)
call-entered_example =
    call-entered idle (pos 0) 7 framework in_handler still_in_handler handler_entered refl refl refl
