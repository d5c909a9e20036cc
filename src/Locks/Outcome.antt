-- ===== src/Locks/Outcome.antt =====
-- All that locking and unlocking do to a lock and to the contexts, gtf/test_state.c.
use driver_optimizer.Prelude.{
  ℕ, suc, ◌+◌, ◌-◌, ◌<◌, ◌≡◌, refl, ◌∙◌, Bool, true, false, not, ◌&&◌, Option, none, some, List,
  ltb, is_none, if◌then◌else◌, pos, minus_one, arith, ==-refl,
}
use driver_optimizer.Action.{ok, stop, assertion}
use driver_optimizer.Hashtable.{Hashtable}
use driver_optimizer.State.{
  HValue, GlobalState, LockType, lock_undefined, spin_lock, spin_lock_bh, spin_lock_irqsave,
  spin_lock_irq, mutex, rwsem, rwlock, generic_lock, max_nesting, BlockingContext, blocking_no,
  blocking_yes, may_block,
}
use driver_optimizer.KernelState.{kernel_blocking_state, pop_blocking_state}
use driver_optimizer.KernelState.Stack.{IsNested, blocking_pushed, push_blocking_state_lem}
use driver_optimizer.Locks.{
  generic_lock_state, is_generic, lock_kernel_state, spinning, sleeping, spins, sleeps,
}
use driver_optimizer.ObjectTracker.Table.{tracked}
use driver_optimizer.Locks.Holder.{
  Holds, held_as, with_holder, lock_with_contexts, unlock_with_contexts, fits, released,
}

-- two tests that are nested are one
nested_test :
    {A : Type 0} (a b : Bool) (m x y : A)
    → m ≡ (if b then x else y)
    → (if a then m else y) ≡ (if a && b then x else y)
nested_test true b m x y e = e
nested_test false b m x y e = refl

-- Is a lock of a type allowed to an origin?
abbrev pub suits : ℕ → LockType → Bool
suits origin lock_undefined = false
suits origin generic_lock = true
suits origin mutex = sleeps origin
suits origin rwsem = sleeps origin
suits origin _ = spins origin

-- Is it allowed in a context?
abbrev pub allowed_in : BlockingContext → LockType → Bool
allowed_in context mutex = may_block context
allowed_in context rwsem = may_block context
allowed_in context _ = true

module _ {T : Type 0} where
  -- the contexts under a lock
  abbrev pub under : LockType → GlobalState T → GlobalState T
  under lock_undefined s = s
  under generic_lock s = s
  under mutex s = blocking_pushed s blocking_yes
  under rwsem s = blocking_pushed s blocking_yes
  under _ s = blocking_pushed s blocking_no

  -- the contexts after a lock, which changed them unless it was of no particular type
  abbrev pub after : LockType → GlobalState T → GlobalState T
  after lock_type s =
      if is_generic lock_type
      then s
      else record s { blocking_context_current = s.blocking_context_current - 1 }

  module _ (origin : ℕ) (s : GlobalState T) (nested : IsNested s) where
    module _ (context : BlockingContext) (now : kernel_blocking_state s ≡ ok (context, s))
        (room : s.blocking_context_current + 1 < max_nesting) where
      spinning_enters :
          spinning origin (pos 1) s
          ≡ (if spins origin then ok (tt, blocking_pushed s blocking_no) else stop assertion)
      spinning_enters =
          let pushed = push_blocking_state_lem s blocking_no nested room in ground arith

      sleeping_enters : sleeping origin (pos 1) s ≡ (
          if sleeps origin && may_block context
          then ok (tt, blocking_pushed s blocking_yes)
          else stop assertion)
      sleeping_enters =
          let pushed = push_blocking_state_lem s blocking_yes nested room in ground arith

      kernel_state_enters :
          (lock_type : LockType)
          → lock_kernel_state origin lock_type (pos 1) s ≡ (
              if suits origin lock_type && allowed_in context lock_type
              then ok (tt, under lock_type s)
              else stop assertion)
      unfolding lock_kernel_state
      kernel_state_enters lock_undefined = refl
      kernel_state_enters generic_lock = refl
      kernel_state_enters mutex = sleeping_enters
      kernel_state_enters rwsem = sleeping_enters
      kernel_state_enters spin_lock = let e = spinning_enters in ground arith
      kernel_state_enters spin_lock_bh = let e = spinning_enters in ground arith
      kernel_state_enters spin_lock_irqsave = let e = spinning_enters in ground arith
      kernel_state_enters spin_lock_irq = let e = spinning_enters in ground arith
      kernel_state_enters rwlock = let e = spinning_enters in ground arith

    kernel_state_leaves :
        (lock_type : LockType)
        → 0 < s.blocking_context_current
        → lock_kernel_state origin lock_type minus_one s
          ≡ (if suits origin lock_type then ok (tt, after lock_type s) else stop assertion)
    unfolding lock_kernel_state pop_blocking_state
    kernel_state_leaves lock_undefined some_left = refl
    kernel_state_leaves generic_lock some_left = refl
    kernel_state_leaves _ some_left = ground arith

module _ {T : Type 0} (s : GlobalState T) (objs : T) where
  -- the same contexts over another table
  over_table : IsNested s → IsNested (record s { objs = objs })
  over_table nested = record {
    blocking_length = nested.blocking_length;
    blocking_inside = nested.blocking_inside;
    user_length = nested.user_length;
    user_inside = nested.user_inside;
  }

  context_over_table :
      (context : BlockingContext)
      → kernel_blocking_state s ≡ ok (context, s)
      → kernel_blocking_state (record s { objs = objs }) ≡ ok (context, record s { objs = objs })
  unfolding kernel_blocking_state
  context_over_table context now = ground arith

module _ {T : Type 0} ⦃h : Hashtable T HValue⦄ where
  with_holder-Holds :
      (s : GlobalState T) (lock : ℕ) (v : HValue) (o : Option LockType)
      → tracked s lock ≡ some v
      → Holds (with_holder s lock v o) lock o
  with_holder-Holds s lock v o known = record {
    entry = held_as v o;
    is_tracked = h.search-store s.objs lock lock (held_as v o) v known ∙ rw (==-refl lock) refl;
    states = refl;
  }

  -- The contexts are not in the table.
  under-Holds :
      (lock_type : LockType) (s : GlobalState T) (lock : ℕ) (o : Option LockType)
      → Holds s lock o
      → Holds (under lock_type s) lock o
  under-Holds lock_undefined s lock o held = held
  under-Holds generic_lock s lock o held = held
  under-Holds _ s lock o held = record {
    entry = held.entry;
    is_tracked = held.is_tracked;
    states = held.states;
  }

  after-Holds :
      (lock_type : LockType) (s : GlobalState T) (lock : ℕ) (o : Option LockType)
      → Holds s lock o
      → Holds (after lock_type s) lock o
  after-Holds generic_lock s lock o held = held
  after-Holds _ s lock o held = record {
    entry = held.entry;
    is_tracked = held.is_tracked;
    states = held.states;
  }

module _ {T : Type 0} ⦃h : Hashtable T HValue⦄ (fuel : ℕ) (fn : List ℕ) (s : GlobalState T)
    (lock origin : ℕ) (lock_type : LockType) (o : Option LockType) (held : Holds s lock o)
    (pointer : ltb 0x1000 lock ≡ true) (nested : IsNested s) where
  -- Locking, seen after the call, of a tracked lock at a plausible address, where the blocking stack
  -- is well formed and has room: the call returns if nobody holds the lock, the type is a particular
  -- one that suits the origin, or that of a trylock, and, for a mutex or a semaphore, the context may
  -- block. The lock is then held in the given type, and the stack has a context more that may block
  -- for a mutex or a semaphore, that may not for a spinning lock, and none more for a trylock. In all
  -- other cases the path ends by an assertion.
  pub lock_after_call :
      (context : BlockingContext)
      → kernel_blocking_state s ≡ ok (context, s)
      → s.blocking_context_current + 1 < max_nesting
      → (generic_lock_state (suc fuel) fn (pos 1) lock origin lock_type (pos 1) s ≡ (
          if is_none o && (suits origin lock_type && allowed_in context lock_type)
          then ok (tt, under lock_type (with_holder s lock held.entry (some lock_type)))
          else stop assertion))
        × Holds
            (under lock_type (with_holder s lock held.entry (some lock_type)))
            lock
            (some lock_type)
  lock_after_call context now room =
      let taken = with_holder s lock held.entry (some lock_type) in
      let step = lock_with_contexts fuel fn s lock origin lock_type o held pointer in
      let entered =
        kernel_state_enters origin taken (over_table s _ nested) context
          (context_over_table s _ context now) room lock_type in
      (
        step ∙ nested_test (is_none o) _ _ _ _ entered,
        under-Holds lock_type taken lock (some lock_type)
            (with_holder-Holds s lock held.entry (some lock_type) held.is_tracked),
      )

  -- Unlocking, seen before the call, of a tracked lock at a plausible address, where the blocking stack
  -- is well formed and not at its bottom: the call returns if the unlock is of a particular type, and
  -- either the lock is held in that type, which suits the origin, or it is held by a trylock. Nobody
  -- holds the lock then, and the top of the blocking stack is popped, except after a trylock. In all
  -- other cases the path ends by an assertion.
  pub unlock_before_call :
      0 < s.blocking_context_current
      → (generic_lock_state (suc fuel) fn (pos 0) lock origin lock_type minus_one s ≡ (
          if (not (is_generic lock_type) && fits lock_type o) && suits origin (released lock_type o)
          then ok (tt, after (released lock_type o) (with_holder s lock held.entry none))
          else stop assertion))
        × Holds (after (released lock_type o) (with_holder s lock held.entry none)) lock none
  unlock_before_call some_left =
      let freed = with_holder s lock held.entry none in
      let step = unlock_with_contexts fuel fn s lock origin lock_type o held pointer in
      let left =
        kernel_state_leaves origin freed (over_table s _ nested) (released lock_type o) some_left in
      (
        step ∙ nested_test (not (is_generic lock_type) && fits lock_type o) _ _ _ _ left,
        after-Holds (released lock_type o) freed lock none
            (with_holder-Holds s lock held.entry none held.is_tracked),
      )
