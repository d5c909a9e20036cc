-- ===== src/Locks/Holder.antt =====
-- The states of one lock in gtf/test_state.c against the type in which it is held, if it is held.
use driver_optimizer.Prelude.{
  ℕ, suc, ◌≡◌, refl, ap, ◌∙◌, Bool, true, false, not, ◌&&◌, ◌||◌, Option, none, some, List, set,
  replicate, ltb, ◌==◌, if◌then◌else◌, is_none, pos, minus_one,
}
use driver_optimizer.Action.{stop, assertion}
use driver_optimizer.Hashtable.{Hashtable}
use driver_optimizer.State.{
  HValue, GlobalState, num_lock_types, LockType, lock_undefined, generic_lock, lock_index,
}
use driver_optimizer.ObjectTracker.Table.{tracked}
use driver_optimizer.Locks.{is_generic, lock_kernel_state, unlock, acquire, generic_lock_state}

-- The states of a lock that nobody holds, or that is held in one way.
abbrev pub states_of : Option LockType → List ℕ
states_of none = replicate num_lock_types 0
states_of (some lock_type) = set (replicate num_lock_types 0) (lock_index lock_type) 1

abbrev pub held_as : HValue → Option LockType → HValue
held_as v o = record v { lock_state = states_of o }

-- The entry as the states say.
held_as-eq : (v : HValue) (o : Option LockType) → v.lock_state ≡ states_of o → v ≡ held_as v o
held_as-eq v o e = λ i. record v { lock_state = e i }

-- An unlock fits a lock that is held in its type, or in no particular one.
abbrev pub fits : LockType → Option LockType → Bool
fits lock_type none = false
fits lock_type (some held) = lock_index held == lock_index lock_type || is_generic held

-- the type by which the contexts are changed at an unlock
abbrev pub released : LockType → Option LockType → LockType
released lock_type none = lock_type
released lock_type (some held) = if is_generic held then generic_lock else lock_type

module _ {T : Type 0} ⦃h : Hashtable T HValue⦄ (s : GlobalState T) (lock : ℕ) (v : HValue) where
  -- the state with the lock's entry rewritten
  abbrev pub with_holder : Option LockType → GlobalState T
  with_holder o = record s { objs = h.store s.objs lock (held_as v o) }

module _ {T : Type 0} ⦃h : Hashtable T HValue⦄ (s : GlobalState T) (lock origin : ℕ)
    (v : HValue) where
  acquire_held :
      (o : Option LockType) (lock_type : LockType)
      → acquire lock origin lock_type (pos 1) (held_as v o) s ≡ (
          if is_none o
          then lock_kernel_state origin lock_type (pos 1) (with_holder s lock v (some lock_type))
          else stop assertion)
  unfolding acquire
  acquire_held none lock_undefined = refl
  acquire_held none _ = refl
  acquire_held (some lock_undefined) lock_undefined = refl
  acquire_held (some lock_undefined) _ = refl
  acquire_held (some _) lock_undefined = refl
  acquire_held (some _) _ = refl

  unlock_held :
      (o : Option LockType) (lock_type : LockType)
      → unlock lock origin lock_type minus_one (held_as v o) s ≡ (
          if not (is_generic lock_type) && fits lock_type o
          then lock_kernel_state origin (released lock_type o) minus_one (with_holder s lock v none)
          else stop assertion)
  unfolding unlock
  unlock_held none lock_undefined = refl
  unlock_held none _ = refl
  unlock_held (some lock_undefined) lock_undefined = refl
  unlock_held (some lock_undefined) _ = refl
  unlock_held (some _) lock_undefined = refl
  unlock_held (some _) _ = refl

module _ {T : Type 0} ⦃h : Hashtable T HValue⦄ where
  -- The tracker has an entry for `lock`, and its states say that it is held as `o`.
  pub record Holds (s : GlobalState T) (lock : ℕ) (o : Option LockType) : Type 0 where
    pub entry : HValue
    pub is_tracked : tracked s lock ≡ some entry
    pub states : entry.lock_state ≡ states_of o

module _ {T : Type 0} ⦃h : Hashtable T HValue⦄ (fuel : ℕ) (fn : List ℕ) (s : GlobalState T)
    (lock origin : ℕ) (lock_type : LockType) (o : Option LockType) (held : Holds s lock o)
    (pointer : ltb 0x1000 lock ≡ true) where
  -- A lock that nobody holds is recorded as held, and the contexts are then asked to change.
  pub lock_with_contexts :
      generic_lock_state (suc fuel) fn (pos 1) lock origin lock_type (pos 1) s ≡ (
        if is_none o
        then lock_kernel_state origin lock_type
            (pos 1)
            (with_holder s lock held.entry (some lock_type))
        else stop assertion)
  unfolding generic_lock_state
  lock_with_contexts =
      rw (held.is_tracked, pointer)
        (ap (λ w. acquire lock origin lock_type (pos 1) w s) (held_as-eq held.entry o held.states)
          ∙ acquire_held s lock origin held.entry o lock_type)

  -- A lock whose release fits is recorded as free, and the contexts are then asked to change.
  pub unlock_with_contexts :
      generic_lock_state (suc fuel) fn (pos 0) lock origin lock_type minus_one s ≡ (
        if not (is_generic lock_type) && fits lock_type o
        then lock_kernel_state origin
            (released lock_type o)
            minus_one
            (with_holder s lock held.entry none)
        else stop assertion)
  unfolding generic_lock_state
  unlock_with_contexts =
      rw (held.is_tracked, pointer)
        (ap (λ w. unlock lock origin lock_type minus_one w s) (held_as-eq held.entry o held.states)
          ∙ unlock_held s lock origin held.entry o lock_type)
