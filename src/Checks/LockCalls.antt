-- ===== src/Checks/LockCalls.antt =====
-- The checks of the calls that make, take and release locks, gtf/misc_checks/main.c. `lock_at` is the
-- address of the argument, which the code compares with 0x1000; `lock` is the argument. The code
-- under ENABLE_SPIN_LOCK is not compiled.
use driver_optimizer.Prelude.{ℕ, List, ltb, not, ◌&&◌, ◌==ℤ◌, if◌then◌else◌, ℤ, pos, minus_one}
use driver_optimizer.Action.{Action, pure, tfassert, ◌>>◌}
use driver_optimizer.Hashtable.{Hashtable}
use driver_optimizer.State.{
  HValue, LockType, spin_lock, spin_lock_bh, spin_lock_irqsave, spin_lock_irq, mutex, rwlock,
  generic_lock, origin_spin_lock, origin_mutex, origin_rwsem, origin_rwlock,
}
use driver_optimizer.Locks.{generic_lock_allocator, generic_lock_state}
use driver_optimizer.Framework.{Framework, on_global_state, check_routine}

-- how often generic_lock_state may call itself
abbrev pub lock_fuel : ℕ
lock_fuel = 2

module _ {T : Type 0} ⦃h : Hashtable T HValue⦄ where
  -- The body of the routines that take or release a lock.
  unfoldable pub lock_state_check :
      ℕ → LockType → ℤ → List ℕ → ℤ → ℕ → ℕ → Action (Framework T) Unit
  lock_state_check origin lock_type add_this fn prepost lock_at lock = check_routine (
      on_global_state (
        tfassert (ltb 0x1000 lock_at)
        >> generic_lock_state lock_fuel fn prepost lock origin lock_type add_this))

  unfoldable pub raw_spin_lock_init_check : List ℕ → ℤ → ℕ → Action (Framework T) Unit
  raw_spin_lock_init_check fn prepost lock =
      check_routine (on_global_state (generic_lock_allocator fn prepost lock origin_spin_lock))

  unfoldable pub raw_spin_lock_check : List ℕ → ℤ → ℕ → ℕ → Action (Framework T) Unit
  raw_spin_lock_check = lock_state_check origin_spin_lock spin_lock (pos 1)

  unfoldable pub raw_spin_lock_bh_check : List ℕ → ℤ → ℕ → ℕ → Action (Framework T) Unit
  raw_spin_lock_bh_check = lock_state_check origin_spin_lock spin_lock_bh (pos 1)

  unfoldable pub raw_spin_lock_irqsave_check : List ℕ → ℤ → ℕ → ℕ → Action (Framework T) Unit
  raw_spin_lock_irqsave_check = lock_state_check origin_spin_lock spin_lock_irqsave (pos 1)

  unfoldable pub raw_spin_lock_irq_check : List ℕ → ℤ → ℕ → ℕ → Action (Framework T) Unit
  raw_spin_lock_irq_check = lock_state_check origin_spin_lock spin_lock_irq (pos 1)

  unfoldable pub raw_spin_unlock_check : List ℕ → ℤ → ℕ → ℕ → Action (Framework T) Unit
  raw_spin_unlock_check = lock_state_check origin_spin_lock spin_lock minus_one

  unfoldable pub raw_spin_unlock_bh_check : List ℕ → ℤ → ℕ → ℕ → Action (Framework T) Unit
  raw_spin_unlock_bh_check = lock_state_check origin_spin_lock spin_lock_bh minus_one

  unfoldable pub raw_spin_unlock_irqrestore_check : List ℕ → ℤ → ℕ → ℕ → Action (Framework T) Unit
  raw_spin_unlock_irqrestore_check = lock_state_check origin_spin_lock spin_lock_irqsave minus_one

  unfoldable pub raw_spin_unlock_irq_check : List ℕ → ℤ → ℕ → ℕ → Action (Framework T) Unit
  raw_spin_unlock_irq_check = lock_state_check origin_spin_lock spin_lock_irq minus_one

  -- A trylock is taken in no particular type, where it succeeds.
  unfoldable pub raw_spin_trylock_check : List ℕ → ℤ → ℤ → ℕ → ℕ → Action (Framework T) Unit
  raw_spin_trylock_check fn prepost retval lock_at lock = check_routine (
      on_global_state (
        tfassert (ltb 0x1000 lock_at)
        >> (if prepost ==ℤ pos 1 && not (retval ==ℤ pos 0)
            then generic_lock_state lock_fuel fn prepost lock origin_spin_lock generic_lock (pos 1)
            else pure tt)))

  -- __mutex_init and mutex_init
  unfoldable pub mutex_init_check : List ℕ → ℤ → ℕ → Action (Framework T) Unit
  mutex_init_check fn prepost lock =
      check_routine (on_global_state (generic_lock_allocator fn prepost lock origin_mutex))

  unfoldable pub mutex_lock_nested_check : List ℕ → ℤ → ℕ → ℕ → Action (Framework T) Unit
  mutex_lock_nested_check = lock_state_check origin_mutex mutex (pos 1)

  -- The results of the next two, which say whether the lock was taken, are not read.
  unfoldable pub mutex_lock_interruptible_nested_check :
      List ℕ → ℤ → ℕ → ℕ → Action (Framework T) Unit
  mutex_lock_interruptible_nested_check = lock_state_check origin_mutex mutex (pos 1)

  unfoldable pub mutex_lock_killable_nested_check : List ℕ → ℤ → ℕ → ℕ → Action (Framework T) Unit
  mutex_lock_killable_nested_check = lock_state_check origin_mutex mutex (pos 1)

  unfoldable pub mutex_unlock_check : List ℕ → ℤ → ℕ → ℕ → Action (Framework T) Unit
  mutex_unlock_check = lock_state_check origin_mutex mutex minus_one

  unfoldable pub init_rwsem_check : List ℕ → ℤ → ℕ → Action (Framework T) Unit
  init_rwsem_check fn prepost lock =
      check_routine (on_global_state (generic_lock_allocator fn prepost lock origin_rwsem))

  unfoldable pub rwlock_init_check : List ℕ → ℤ → ℕ → Action (Framework T) Unit
  rwlock_init_check fn prepost lock =
      check_routine (on_global_state (generic_lock_allocator fn prepost lock origin_rwlock))

  unfoldable pub write_lock_irq_check : List ℕ → ℤ → ℕ → ℕ → Action (Framework T) Unit
  write_lock_irq_check = lock_state_check origin_rwlock rwlock (pos 1)

  unfoldable pub read_lock_irq_check : List ℕ → ℤ → ℕ → ℕ → Action (Framework T) Unit
  read_lock_irq_check = lock_state_check origin_rwlock rwlock (pos 1)

  unfoldable pub read_lock_check : List ℕ → ℤ → ℕ → ℕ → Action (Framework T) Unit
  read_lock_check = lock_state_check origin_rwlock rwlock (pos 1)

  unfoldable pub write_lock_irqsave_check : List ℕ → ℤ → ℕ → ℕ → Action (Framework T) Unit
  write_lock_irqsave_check = lock_state_check origin_rwlock rwlock (pos 1)

  unfoldable pub read_lock_irqsave_check : List ℕ → ℤ → ℕ → ℕ → Action (Framework T) Unit
  read_lock_irqsave_check = lock_state_check origin_rwlock rwlock (pos 1)

  unfoldable pub write_unlock_irq_check : List ℕ → ℤ → ℕ → ℕ → Action (Framework T) Unit
  write_unlock_irq_check = lock_state_check origin_rwlock rwlock minus_one

  unfoldable pub read_unlock_irq_check : List ℕ → ℤ → ℕ → ℕ → Action (Framework T) Unit
  read_unlock_irq_check = lock_state_check origin_rwlock rwlock minus_one

  unfoldable pub read_unlock_check : List ℕ → ℤ → ℕ → ℕ → Action (Framework T) Unit
  read_unlock_check = lock_state_check origin_rwlock rwlock minus_one

  unfoldable pub write_unlock_irqrestore_check : List ℕ → ℤ → ℕ → ℕ → Action (Framework T) Unit
  write_unlock_irqrestore_check = lock_state_check origin_rwlock rwlock minus_one

  unfoldable pub read_unlock_irqrestore_check : List ℕ → ℤ → ℕ → ℕ → Action (Framework T) Unit
  read_unlock_irqrestore_check = lock_state_check origin_rwlock rwlock minus_one

module _ {T : Type 0} where
  unfoldable pub up_write_check : Action (Framework T) Unit
  up_write_check = check_routine (pure tt)

  unfoldable pub up_read_check : Action (Framework T) Unit
  up_read_check = check_routine (pure tt)

  unfoldable pub down_write_check : Action (Framework T) Unit
  down_write_check = check_routine (pure tt)

  unfoldable pub down_read_check : Action (Framework T) Unit
  down_read_check = check_routine (pure tt)
