-- ===== src/Tests/Wrappers.antt =====
-- Check routines and wrappers on concrete inputs.
use driver_optimizer.Prelude.{true, ◌≡◌, refl, List, [], ◌∷◌, none, some, pos, false, ℕ, arith}
use driver_optimizer.Action.{assertion, stop, ◌>>◌, Action, ok}
use driver_optimizer.State.{
  device_state_enabled, zeroed_drivers, GlobalState, HValue, blocking_undefined, origin_spin_lock,
}
use driver_optimizer.KernelState.{kernel_blocking_state, push_blocking_state}
use driver_optimizer.KernelState.Stack.{
  blocking_pushed, IsNested, Restores, blocking_stack, user_stack,
}
use driver_optimizer.ObjectTracker.Table.{tracked}
use driver_optimizer.ObjectTracker.Allocation.{HasMemory}
use driver_optimizer.Locks.Holder.{Holds}
use driver_optimizer.Framework.{Framework, check_routine, on_global_state}
use driver_optimizer.Framework.Locked.{check_routine-free}
use driver_optimizer.Checks.KernelCalls.{
  KernelCall, kmalloc, kfree, vmalloc, spec_calls, checked_calls,
}
use driver_optimizer.Checks.Memory.{AgreesWith, checked_calls-implement}
use driver_optimizer.Checks.SpinCalls.{raw_spin, section_checks}
use driver_optimizer.Checks.Sections.{section-restores}
use driver_optimizer.Structs.Routines.{
  Run, idle, entered, file_read, area_fault, bus_probe, run_driver,
}
use driver_optimizer.Structs.Nesting.{run_driver-Restores}
use driver_optimizer.EnterExit.{entrance, exit, prepost_fn, stub_wrapper}
use driver_optimizer.EnterExit.CallStack.{
  Crossing, crossings, spec_crossings, with_running, outcome, crossings-implements-spec_crossings,
}
use driver_optimizer.EnterExit.Exits.{ExitChecked, outermost_exit}
use driver_optimizer.EnterExit.Wrappers.{exit_checks, gen_make_symbolic_ptr}
use driver_optimizer.EnterExit.MadeUp.{made_up_ends}
use driver_optimizer.Checks.Netdev.{register-unregister-register}
use driver_optimizer.Checks.Network.{register_netdev_check, unregister_netdev_check}
use driver_optimizer.Hashtable.Assoc.{assoc}
use driver_optimizer.Tests.{
  start, Objects, linux, loaded, caller, object_value, lock_address, with_object, start-IsNested,
}

-- two allocations, one of which is given back
abbrev history : List KernelCall
history = kmalloc caller 24 208 4096 ∷ vmalloc caller 64 8192 ∷ kfree 4096 ∷ []

memory : HasMemory Objects
memory t key value = ((key, value) ∷ t, refl)

now : kernel_blocking_state start ≡ ok (blocking_undefined, start)
unfolding kernel_blocking_state
now = refl

checked_calls-implement_example :
    AgreesWith
      (checked_calls 16 history loaded)
      (spec_calls blocking_undefined history (some (tracked loaded.global_state)))
checked_calls-implement_example =
    checked_calls-implement memory 16 refl blocking_undefined history loaded refl now

-- a read that faults, and a probe after it
abbrev busy : Run
busy = entered file_read (entered area_fault idle idle) (entered bus_probe idle idle)

run_driver-Restores_example :
    (g : GlobalState Objects) × (run_driver busy loaded
      ≡ ok (tt, record loaded { global_state = g }))
    × Restores loaded.global_state g
run_driver-Restores_example =
    run_driver-Restores busy loaded refl start-IsNested (omega arith) (omega arith)

-- a spinlock that is known and free
abbrev known_lock : HValue
known_lock = object_value origin_spin_lock (0 ∷ 0 ∷ 0 ∷ 0 ∷ 0 ∷ 0 ∷ 0 ∷ 0 ∷ 0 ∷ [])

abbrev with_lock : Framework Objects
with_lock = record loaded { global_state = with_object known_lock }

abbrev known_lock-Holds : Holds with_lock.global_state lock_address none
known_lock-Holds = record { entry = known_lock; is_tracked = refl; states = refl }

known_lock-IsNested : IsNested with_lock.global_state
known_lock-IsNested = record {
  blocking_length = refl;
  blocking_inside = omega arith;
  user_length = refl;
  user_inside = omega arith;
}

section-restores_example :
    (g : GlobalState Objects) × (section_checks raw_spin caller 8192 lock_address with_lock
      ≡ ok (tt, record with_lock { global_state = g }))
    × Holds g lock_address none
    × (g.blocking_context_current ≡ 0)
    × (blocking_stack g ≡ blocking_stack with_lock.global_state)
    × (user_stack g ≡ user_stack with_lock.global_state)
section-restores_example =
    section-restores raw_spin caller 8192 lock_address with_lock refl refl refl known_lock-Holds
      known_lock-IsNested (omega arith)

abbrev under_lock : Framework Objects
under_lock = record loaded { global_lock_acquired = 1 }

abbrev probe : List ℕ
probe = 112 ∷ []

-- the driver's probe is entered, leaves for the kernel, comes back and returns
abbrev trip : List Crossing
trip =
    record { fn = probe; dir = entrance; wrapper_type = prepost_fn }
    ∷ record { fn = caller; dir = exit; wrapper_type = stub_wrapper }
    ∷ record { fn = caller; dir = entrance; wrapper_type = stub_wrapper }
    ∷ record { fn = probe; dir = exit; wrapper_type = prepost_fn }
    ∷ []

crossings-implements-spec_crossings_example :
    crossings trip (with_running under_lock []) ≡ outcome under_lock (spec_crossings trip (some []))
crossings-implements-spec_crossings_example =
    crossings-implements-spec_crossings under_lock refl trip [] (omega arith)

-- a bad path, where results are symbolic
abbrev bad : Framework Objects
bad = record under_lock {
  enter_exit = record under_lock.enter_exit { bad_path = 1; g_sym_retval = pos 2 };
}

outermost_exit_example : ExitChecked caller bad probe 0 false
outermost_exit_example = outermost_exit caller bad probe 0 false refl refl

-- the body of a check that pushes a context
abbrev pushes : Action (Framework Objects) Unit
pushes = on_global_state (push_blocking_state blocking_undefined)

abbrev pushed : Framework Objects
pushed = record loaded { global_state = blocking_pushed start blocking_undefined }

ran : check_routine pushes loaded ≡ ok (tt, pushed)
unfolding check_routine push_blocking_state
ran = refl

check_routine-free_example : (loaded.global_lock_acquired ≡ 0) × (pushed.global_lock_acquired ≡ 0)
check_routine-free_example = check_routine-free pushes loaded pushed ran

abbrev null : ℕ
null = 0

-- where results are symbolic, the driver is given NULL in place of the kernel's pointer
abbrev mixed : Framework Objects
mixed = record loaded { enter_exit = record loaded.enter_exit { g_sym_retval = pos 2 } }

abbrev marked : Framework Objects
marked = record mixed { enter_exit = record mixed.enter_exit { bad_path = 1 } }

given : gen_make_symbolic_ptr 4096 0 mixed ≡ ok ((0, pos 2), marked)
unfolding gen_make_symbolic_ptr
given = refl

made_up_ends_example :
    (null ≡ 0)
    × ¬ (
        exit_checks caller probe prepost_fn true 0 false (with_running bad (probe ∷ []))
        ≡ ok (tt, under_lock))
made_up_ends_example =
    made_up_ends mixed marked 4096 0 null (pos 2) bad caller probe 0 false (tt, under_lock) given
      (omega arith) refl refl refl refl

-- a driver whose PCI device is enabled
abbrev probed : Framework Objects
probed = record loaded {
  drivers = record zeroed_drivers {
    pci_driver_state = record zeroed_drivers.pci_driver_state { enabled = device_state_enabled };
  };
}

register-unregister-register_example :
    (register_netdev_check (pos 0) (pos 0) 4096
        >> register_netdev_check (pos 1) (pos 0) 4096
        >> unregister_netdev_check (pos 0)
        >> unregister_netdev_check (pos 1)
        >> register_netdev_check (pos 0) (pos 0) 8192)
      probed
    ≡ stop assertion
register-unregister-register_example =
    register-unregister-register probed (pos 0) (pos 0) 4096 8192 refl refl refl refl refl refl
