-- ===== src/Tests/Locking.antt =====
-- The locking protocol on concrete inputs.
use driver_optimizer.Prelude.{
  ◌≡◌, ◌≢◌, refl, replicate, none, some, pos, minus_one, leb, if◌then◌else◌, ◌&&◌,
}
use driver_optimizer.Action.{ok, stop, assertion, out_of_fuel}
use driver_optimizer.State.{mutex, num_lock_types, spin_lock, HValue, origin_spin_lock}
use driver_optimizer.Locks.{generic_lock_state, verify_lock_state, are_flags, locked}
use driver_optimizer.Locks.Counting.{verify_lock_state_lem}
use driver_optimizer.Locks.Holder.{Holds, states_of, with_holder}
use driver_optimizer.Locks.Outcome.{under, after, lock_after_call, unlock_before_call}
use driver_optimizer.Locks.Recursion.{precondition_returns, postcondition_recurses}
use driver_optimizer.Locks.Discipline.{unlock-lock}
use driver_optimizer.Locks.Atomic.{sleep_in_atomic}
use driver_optimizer.Action.{◌>>◌}
use driver_optimizer.State.{GlobalState, rwsem, origin_mutex, blocking_no, blocking_undefined}
use driver_optimizer.KernelState.{kernel_blocking_state}
use driver_optimizer.KernelState.Stack.{blocking_stack, user_stack, blocking_pushed, IsNested}
use driver_optimizer.Prelude.{arith}
use driver_optimizer.Hashtable.Assoc.{assoc}
use driver_optimizer.Tests.{Objects, start, caller, object_value, lock_address, with_object}

abbrev free_lock : HValue
free_lock = object_value origin_spin_lock (replicate num_lock_types 0)

abbrev held_lock : HValue
held_lock = object_value origin_spin_lock (states_of (some spin_lock))

abbrev free_lock-Holds : Holds (with_object free_lock) lock_address none
free_lock-Holds = record { entry = free_lock; is_tracked = refl; states = refl }

abbrev held_lock-Holds : Holds (with_object held_lock) lock_address (some spin_lock)
held_lock-Holds = record { entry = held_lock; is_tracked = refl; states = refl }

free_lock-IsNested : IsNested (with_object free_lock)
free_lock-IsNested = record {
  blocking_length = refl;
  blocking_inside = omega arith;
  user_length = refl;
  user_inside = omega arith;
}

at_bottom :
    kernel_blocking_state (with_object free_lock) ≡ ok (blocking_undefined, with_object free_lock)
unfolding kernel_blocking_state
at_bottom = refl

lock_after_call_example :
    (generic_lock_state 1 caller
        (pos 1)
        lock_address
        origin_spin_lock
        spin_lock
        (pos 1)
        (with_object free_lock)
      ≡ ok (
        tt,
        under spin_lock
            (with_holder (with_object free_lock) lock_address free_lock (some spin_lock)),
      ))
    × Holds
        (under spin_lock
          (with_holder (with_object free_lock) lock_address free_lock (some spin_lock)))
        lock_address
        (some spin_lock)
lock_after_call_example =
    lock_after_call 0 caller (with_object free_lock) lock_address origin_spin_lock spin_lock none
      free_lock-Holds refl free_lock-IsNested blocking_undefined at_bottom (omega arith)

-- the lock is held, and a context is pushed for it
abbrev under_lock : GlobalState Objects
under_lock = blocking_pushed (with_object held_lock) blocking_no

abbrev under_lock-Holds : Holds under_lock lock_address (some spin_lock)
under_lock-Holds = record { entry = held_lock; is_tracked = refl; states = refl }

under_lock-IsNested : IsNested under_lock
under_lock-IsNested = record {
  blocking_length = refl;
  blocking_inside = omega arith;
  user_length = refl;
  user_inside = omega arith;
}

unlock_before_call_example :
    (generic_lock_state 1 caller
        (pos 0)
        lock_address
        origin_spin_lock
        spin_lock
        minus_one
        under_lock
      ≡ ok (tt, after spin_lock (with_holder under_lock lock_address held_lock none)))
    × Holds (after spin_lock (with_holder under_lock lock_address held_lock none)) lock_address none
unlock_before_call_example =
    unlock_before_call 0 caller under_lock lock_address origin_spin_lock spin_lock (some spin_lock)
      under_lock-Holds refl under_lock-IsNested (omega arith)

verify_lock_state_lem_example : verify_lock_state held_lock start ≡ (
    if are_flags held_lock.lock_state && leb (locked held_lock.lock_state) 1
    then ok (tt, start)
    else stop assertion)
verify_lock_state_lem_example = verify_lock_state_lem held_lock start

precondition_returns_example :
    generic_lock_state 2 caller (pos 0) lock_address origin_spin_lock spin_lock (pos 1) start
    ≢ stop out_of_fuel
precondition_returns_example =
    precondition_returns 0 caller lock_address origin_spin_lock spin_lock (pos 1) start

postcondition_recurses_example :
    generic_lock_state 100 caller (pos 1) lock_address origin_spin_lock spin_lock (pos 1) start
    ≡ stop out_of_fuel
postcondition_recurses_example =
    postcondition_recurses 100 caller start lock_address origin_spin_lock spin_lock (pos 1) refl
      refl

unlock-lock_example :
    (t : GlobalState Objects) × ((generic_lock_state 1 caller
            (pos 1)
            lock_address
            origin_spin_lock
            spin_lock
            (pos 1)
          >> generic_lock_state 1 caller (pos 0) lock_address origin_spin_lock spin_lock minus_one)
        (with_object free_lock)
      ≡ ok (tt, t))
    × Holds t lock_address none
    × (t.blocking_context_current ≡ (with_object free_lock).blocking_context_current)
    × (blocking_stack t ≡ blocking_stack (with_object free_lock))
    × (user_stack t ≡ user_stack (with_object free_lock))
unlock-lock_example =
    unlock-lock 0 caller (with_object free_lock) lock_address origin_spin_lock spin_lock
      free_lock-Holds refl refl refl
      (record {
        blocking_length = refl;
        blocking_inside = omega arith;
        user_length = refl;
        user_inside = omega arith;
      })
      (omega arith)

-- a state in an atomic context, with a lock that nobody holds
abbrev in_atomic : GlobalState Objects
in_atomic = blocking_pushed (with_object free_lock) blocking_no

in_atomic_context : kernel_blocking_state in_atomic ≡ ok (blocking_no, in_atomic)
unfolding kernel_blocking_state
in_atomic_context = refl

sleep_in_atomic_example :
    (generic_lock_state 1 caller (pos 1) lock_address origin_mutex mutex (pos 1) in_atomic
      ≡ stop assertion)
    × (generic_lock_state 1 caller (pos 1) lock_address origin_mutex rwsem (pos 1) in_atomic
        ≡ stop assertion)
sleep_in_atomic_example =
    sleep_in_atomic 0 caller in_atomic lock_address origin_mutex none
      (record { entry = free_lock; is_tracked = refl; states = refl }) refl in_atomic_context
