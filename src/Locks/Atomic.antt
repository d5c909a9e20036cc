-- ===== src/Locks/Atomic.antt =====
-- A lock that may sleep, taken where the kernel may not block: gtf/test_state.c.
use driver_optimizer.Prelude.{ℕ, suc, ◌≡◌, ◌∙◌, true, Option, none, some, List, ltb, pos, arith}
use driver_optimizer.Action.{ok, stop, assertion}
use driver_optimizer.Hashtable.{Hashtable}
use driver_optimizer.State.{HValue, GlobalState, LockType, mutex, rwsem, blocking_no}
use driver_optimizer.KernelState.{kernel_blocking_state}
use driver_optimizer.Locks.{generic_lock_state, lock_kernel_state, sleeping}
use driver_optimizer.Locks.Holder.{Holds, lock_with_contexts}

module _ {T : Type 0} (origin : ℕ) (s : GlobalState T) (objs : T)
    (atomic : kernel_blocking_state s ≡ ok (blocking_no, s)) where
  sleeping_stops : sleeping origin (pos 1) (record s { objs = objs }) ≡ stop assertion
  unfolding kernel_blocking_state
  sleeping_stops = ground arith

  mutex_stops : lock_kernel_state origin mutex (pos 1) (record s { objs = objs }) ≡ stop assertion
  unfolding lock_kernel_state
  mutex_stops = sleeping_stops

  rwsem_stops : lock_kernel_state origin rwsem (pos 1) (record s { objs = objs }) ≡ stop assertion
  unfolding lock_kernel_state
  rwsem_stops = sleeping_stops

module _ {T : Type 0} ⦃h : Hashtable T HValue⦄ where
  -- Sleeping in an atomic context is found: where the top of the blocking stack does not let the
  -- kernel block, taking a tracked mutex or semaphore at a plausible address, held or not and of
  -- whatever origin, ends the path by an assertion.
  pub sleep_in_atomic :
      (fuel : ℕ) (fn : List ℕ) (s : GlobalState T) (lock origin : ℕ) (o : Option LockType)
      → Holds s lock o
      → ltb 0x1000 lock ≡ true
      → kernel_blocking_state s ≡ ok (blocking_no, s)
      → (generic_lock_state (suc fuel) fn (pos 1) lock origin mutex (pos 1) s ≡ stop assertion)
        × (generic_lock_state (suc fuel) fn (pos 1) lock origin rwsem (pos 1) s ≡ stop assertion)
  sleep_in_atomic fuel fn s lock origin none held pointer atomic = (
    lock_with_contexts fuel fn s lock origin mutex none held pointer
        ∙ mutex_stops origin s _ atomic,
    lock_with_contexts fuel fn s lock origin rwsem none held pointer
        ∙ rwsem_stops origin s _ atomic,
  )
  sleep_in_atomic fuel fn s lock origin (some holder) held pointer atomic = (
    lock_with_contexts fuel fn s lock origin mutex (some holder) held pointer,
    lock_with_contexts fuel fn s lock origin rwsem (some holder) held pointer,
  )
