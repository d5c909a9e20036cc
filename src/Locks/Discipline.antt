-- ===== src/Locks/Discipline.antt =====
-- A lock that is taken and released, with the contexts that gtf/test_state.c changes for it.
use driver_optimizer.Prelude.{
  ℕ, suc, ◌+◌, ◌-◌, ◌<◌, ◌≡◌, refl, ap, ◌∙◌, Bool, true, false, not, ◌&&◌, none, some, List, ltb,
  if◌then◌else◌, pos, minus_one, ℤ, arith, ==-refl,
}
use driver_optimizer.Action.{ok, continue, ◌>>◌}
use driver_optimizer.Hashtable.{Hashtable}
use driver_optimizer.State.{
  HValue, GlobalState, LockType, lock_undefined, spin_lock, spin_lock_bh, spin_lock_irqsave,
  spin_lock_irq, mutex, rwsem, rwlock, generic_lock, max_nesting, blocking_no,
}
use driver_optimizer.KernelState.Stack.{
  IsNested, blocking_stack, user_stack, blocking_pushed, push_blocking_state_lem, take-set,
}
use driver_optimizer.KernelState.{pop_blocking_state}
use driver_optimizer.Locks.{generic_lock_state, is_generic, lock_kernel_state, spinning, spins}
use driver_optimizer.Locks.Holder.{
  Holds, held_as, with_holder, lock_with_contexts, unlock_with_contexts, fits, released,
}

-- the types of lock that spin
abbrev pub is_spin : LockType → Bool
is_spin spin_lock = true
is_spin spin_lock_bh = true
is_spin spin_lock_irqsave = true
is_spin spin_lock_irq = true
is_spin rwlock = true
is_spin lock_undefined = false
is_spin mutex = false
is_spin rwsem = false
is_spin generic_lock = false

kernel_state-spin :
    {T : Type 0} (origin : ℕ) (lock_type : LockType) (add_this : ℤ) (s : GlobalState T)
    → is_spin lock_type ≡ true
    → lock_kernel_state origin lock_type add_this s ≡ spinning origin add_this s
unfolding lock_kernel_state
kernel_state-spin origin lock_undefined add_this s spin = absurd cc
kernel_state-spin origin mutex add_this s spin = absurd cc
kernel_state-spin origin rwsem add_this s spin = absurd cc
kernel_state-spin origin generic_lock add_this s spin = absurd cc
kernel_state-spin origin _ add_this s spin = refl

-- An unlock of the same type fits, and is of a particular type.
fits_own :
    (lock_type : LockType)
    → is_spin lock_type ≡ true
    → ((not (is_generic lock_type) && fits lock_type (some lock_type)) ≡ true)
      × (released lock_type (some lock_type) ≡ lock_type)
fits_own lock_undefined spin = absurd cc
fits_own mutex spin = absurd cc
fits_own rwsem spin = absurd cc
fits_own generic_lock spin = absurd cc
fits_own _ spin = (refl, refl)

chosen_true : {A : Type 0} {b : Bool} {x : A} (y : A) → b ≡ true → (if b then x else y) ≡ x
chosen_true y p = rw p refl

module _ {T : Type 0} (origin : ℕ) (lock_type : LockType) (spin : is_spin lock_type ≡ true)
    (kind : spins origin ≡ true) (s : GlobalState T) where
  lock_enters :
      IsNested s
      → s.blocking_context_current + 1 < max_nesting
      → lock_kernel_state origin lock_type (pos 1) s ≡ ok (tt, blocking_pushed s blocking_no)
  lock_enters nested room =
      kernel_state-spin origin lock_type (pos 1) s spin
      ∙ rw kind (push_blocking_state_lem s blocking_no nested room)

  abbrev popped : GlobalState T
  popped = record s { blocking_context_current = s.blocking_context_current - 1 }

  unlock_leaves :
      0 < s.blocking_context_current
      → lock_kernel_state origin lock_type minus_one s ≡ ok (tt, popped)
  unfolding pop_blocking_state
  unlock_leaves some_left =
      kernel_state-spin origin lock_type minus_one s spin ∙ rw kind (ground arith)

module _ {T : Type 0} ⦃h : Hashtable T HValue⦄ (fuel : ℕ) (fn : List ℕ) (s : GlobalState T)
    (lock origin : ℕ) (lock_type : LockType) (held : Holds s lock none)
    (pointer : ltb 0x1000 lock ≡ true) (spin : is_spin lock_type ≡ true)
    (kind : spins origin ≡ true) (nested : IsNested s)
    (room : s.blocking_context_current + 1 < max_nesting) where
  -- while the lock is held
  abbrev inside : GlobalState T
  inside = blocking_pushed (with_holder s lock held.entry (some lock_type)) blocking_no

  abbrev inside-Holds : Holds inside lock (some lock_type)
  inside-Holds = record {
    entry = held_as held.entry (some lock_type);
    is_tracked =
        h.search-store s.objs lock lock (held_as held.entry (some lock_type)) held.entry
          held.is_tracked
        ∙ chosen_true _ (==-refl lock);
    states = refl;
  }

  -- after it is released
  abbrev outside : GlobalState T
  outside = record (with_holder inside lock (held_as held.entry (some lock_type)) none) {
    blocking_context_current = s.blocking_context_current + 1 - 1;
  }

  taken : generic_lock_state (suc fuel) fn (pos 1) lock origin lock_type (pos 1) s ≡ ok (tt, inside)
  taken =
      lock_with_contexts fuel fn s lock origin lock_type none held pointer
      ∙ lock_enters origin lock_type spin kind (with_holder s lock held.entry (some lock_type))
          (record {
            blocking_length = nested.blocking_length;
            blocking_inside = nested.blocking_inside;
            user_length = nested.user_length;
            user_inside = nested.user_inside;
          })
          room

  given_back :
      generic_lock_state (suc fuel) fn (pos 0) lock origin lock_type minus_one inside
      ≡ ok (tt, outside)
  given_back =
      unlock_with_contexts fuel fn inside lock origin lock_type (some lock_type) inside-Holds
        pointer
      ∙ chosen_true _ (fits_own lock_type spin).0
      ∙ ap
          (λ r.
            lock_kernel_state origin r minus_one
              (with_holder inside lock (held_as held.entry (some lock_type)) none))
          (fits_own lock_type spin).1
      ∙ unlock_leaves origin lock_type spin kind _ (omega arith)

  -- A spinning lock that is tracked, at a plausible address, of an origin that spins, and held by
  -- nobody, is taken and then released in the same type: where the blocking stack has room, both
  -- calls return, nobody holds the lock afterwards, and both stacks are as they were before.
  pub unlock-lock :
      (t : GlobalState T) × ((generic_lock_state (suc fuel) fn (pos 1) lock origin lock_type (pos 1)
            >> generic_lock_state (suc fuel) fn (pos 0) lock origin lock_type minus_one)
          s
        ≡ ok (tt, t))
      × Holds t lock none
      × (t.blocking_context_current ≡ s.blocking_context_current)
      × (blocking_stack t ≡ blocking_stack s)
      × (user_stack t ≡ user_stack s)
  unlock-lock = (
    outside,
    ap
          (λ r.
            continue r
              (λ _. generic_lock_state (suc fuel) fn (pos 0) lock origin lock_type minus_one))
          taken
        ∙ given_back,
    record {
      entry = held_as held.entry none;
      is_tracked =
          h.search-store inside.objs lock lock (held_as held.entry none) inside-Holds.entry
            inside-Holds.is_tracked
          ∙ chosen_true _ (==-refl lock);
      states = refl;
    },
    omega arith,
    (let back : s.blocking_context_current + 1 - 1 ≡ s.blocking_context_current = omega arith in
        rw back (
          take-set s.blocking_context s.blocking_context_current (s.blocking_context_current + 1)
            blocking_no (omega arith))),
    refl,
  )
