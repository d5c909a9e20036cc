-- ===== src/Checks/SpinCalls.antt =====
-- The calls that take and release a spinning lock, in pairs, and the four checks of
-- gtf/misc_checks/main.c around the two calls of a pair.
use driver_optimizer.Prelude.{ℕ, ◌≡◌, refl, true, List, ℤ, pos, minus_one}
use driver_optimizer.Action.{Action, ◌>>◌}
use driver_optimizer.Hashtable.{Hashtable}
use driver_optimizer.State.{
  HValue, LockType, spin_lock, spin_lock_bh, spin_lock_irqsave, spin_lock_irq, rwlock,
  origin_spin_lock, origin_rwlock,
}
use driver_optimizer.Locks.{spins}
use driver_optimizer.Locks.Discipline.{is_spin}
use driver_optimizer.Framework.{Framework}
use driver_optimizer.Checks.LockCalls.{
  lock_state_check, raw_spin_lock_check, raw_spin_lock_bh_check, raw_spin_lock_irqsave_check,
  raw_spin_lock_irq_check, raw_spin_unlock_check, raw_spin_unlock_bh_check,
  raw_spin_unlock_irqrestore_check, raw_spin_unlock_irq_check, write_lock_irq_check,
  read_lock_irq_check, read_lock_check, write_lock_irqsave_check, read_lock_irqsave_check,
  write_unlock_irq_check, read_unlock_irq_check, read_unlock_check, write_unlock_irqrestore_check,
  read_unlock_irqrestore_check,
}

-- The pairs of calls that take and release a spinning lock.
pub data SpinCall : Type 0 where
  raw_spin raw_spin_bh raw_spin_irqsave raw_spin_irq : SpinCall
  write_irq read_irq read write_irqsave read_irqsave : SpinCall

abbrev pub origin_of : SpinCall → ℕ
origin_of raw_spin = origin_spin_lock
origin_of raw_spin_bh = origin_spin_lock
origin_of raw_spin_irqsave = origin_spin_lock
origin_of raw_spin_irq = origin_spin_lock
origin_of _ = origin_rwlock

abbrev pub type_of : SpinCall → LockType
type_of raw_spin = spin_lock
type_of raw_spin_bh = spin_lock_bh
type_of raw_spin_irqsave = spin_lock_irqsave
type_of raw_spin_irq = spin_lock_irq
type_of _ = rwlock

module _ {T : Type 0} ⦃h : Hashtable T HValue⦄ where
  unfoldable pub lock_call : SpinCall → List ℕ → ℤ → ℕ → ℕ → Action (Framework T) Unit
  lock_call raw_spin = raw_spin_lock_check
  lock_call raw_spin_bh = raw_spin_lock_bh_check
  lock_call raw_spin_irqsave = raw_spin_lock_irqsave_check
  lock_call raw_spin_irq = raw_spin_lock_irq_check
  lock_call write_irq = write_lock_irq_check
  lock_call read_irq = read_lock_irq_check
  lock_call read = read_lock_check
  lock_call write_irqsave = write_lock_irqsave_check
  lock_call read_irqsave = read_lock_irqsave_check

  unfoldable pub unlock_call : SpinCall → List ℕ → ℤ → ℕ → ℕ → Action (Framework T) Unit
  unlock_call raw_spin = raw_spin_unlock_check
  unlock_call raw_spin_bh = raw_spin_unlock_bh_check
  unlock_call raw_spin_irqsave = raw_spin_unlock_irqrestore_check
  unlock_call raw_spin_irq = raw_spin_unlock_irq_check
  unlock_call write_irq = write_unlock_irq_check
  unlock_call read_irq = read_unlock_irq_check
  unlock_call read = read_unlock_check
  unlock_call write_irqsave = write_unlock_irqrestore_check
  unlock_call read_irqsave = read_unlock_irqrestore_check

  -- The four checks, before and after each of the two calls.
  unfoldable pub section_checks : SpinCall → List ℕ → ℕ → ℕ → Action (Framework T) Unit
  section_checks c fn at lock = do
    lock_call c fn (pos 0) at lock
    lock_call c fn (pos 1) at lock
    unlock_call c fn (pos 0) at lock
    unlock_call c fn (pos 1) at lock

  pub lock_call_lem :
      (c : SpinCall) → lock_call c ≡ lock_state_check (origin_of c) (type_of c) (pos 1)
  unfolding lock_call raw_spin_lock_check raw_spin_lock_bh_check raw_spin_lock_irqsave_check
      raw_spin_lock_irq_check write_lock_irq_check read_lock_irq_check read_lock_check
      write_lock_irqsave_check read_lock_irqsave_check
  lock_call_lem raw_spin = refl
  lock_call_lem raw_spin_bh = refl
  lock_call_lem raw_spin_irqsave = refl
  lock_call_lem raw_spin_irq = refl
  lock_call_lem write_irq = refl
  lock_call_lem read_irq = refl
  lock_call_lem read = refl
  lock_call_lem write_irqsave = refl
  lock_call_lem read_irqsave = refl

  pub unlock_call_lem :
      (c : SpinCall) → unlock_call c ≡ lock_state_check (origin_of c) (type_of c) minus_one
  unfolding unlock_call raw_spin_unlock_check raw_spin_unlock_bh_check
      raw_spin_unlock_irqrestore_check raw_spin_unlock_irq_check write_unlock_irq_check
      read_unlock_irq_check read_unlock_check write_unlock_irqrestore_check
      read_unlock_irqrestore_check
  unlock_call_lem raw_spin = refl
  unlock_call_lem raw_spin_bh = refl
  unlock_call_lem raw_spin_irqsave = refl
  unlock_call_lem raw_spin_irq = refl
  unlock_call_lem write_irq = refl
  unlock_call_lem read_irq = refl
  unlock_call_lem read = refl
  unlock_call_lem write_irqsave = refl
  unlock_call_lem read_irqsave = refl

pub spin_kind : (c : SpinCall) → (spins (origin_of c) ≡ true) × (is_spin (type_of c) ≡ true)
spin_kind raw_spin = (refl, refl)
spin_kind raw_spin_bh = (refl, refl)
spin_kind raw_spin_irqsave = (refl, refl)
spin_kind raw_spin_irq = (refl, refl)
spin_kind write_irq = (refl, refl)
spin_kind read_irq = (refl, refl)
spin_kind read = (refl, refl)
spin_kind write_irqsave = (refl, refl)
spin_kind read_irqsave = (refl, refl)
