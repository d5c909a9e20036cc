-- ===== src/Checks/Sections.antt =====
-- A section of the driver under a spinning lock: the four checks of gtf/misc_checks/main.c around the
-- call that takes the lock and the call that releases it.
use driver_optimizer.Prelude.{
  ℕ, ◌+◌, ◌<◌, ◌≡◌, refl, ap, ◌∙◌, true, none, List, ltb, ℤ, pos, minus_one,
}
use driver_optimizer.Action.{then_assoc, Action, ok, ◌>>◌, continue, tfassert}
use driver_optimizer.Hashtable.{Hashtable}
use driver_optimizer.State.{HValue, GlobalState, max_nesting}
use driver_optimizer.KernelState.Stack.{IsNested, blocking_stack, user_stack}
use driver_optimizer.Locks.{generic_lock_state}
use driver_optimizer.Locks.Holder.{Holds}
use driver_optimizer.Locks.Discipline.{unlock-lock}
use driver_optimizer.Framework.{Framework}
use driver_optimizer.Framework.Lifts.{Lifts, Lifts-ok, check_routine-Lifts, then-Lifts}
use driver_optimizer.Checks.LockCalls.{lock_fuel, lock_state_check}
use driver_optimizer.Checks.SpinCalls.{
  SpinCall, origin_of, type_of, lock_call, unlock_call, section_checks, lock_call_lem,
  unlock_call_lem, spin_kind,
}

module _ {T : Type 0} ⦃h : Hashtable T HValue⦄ (fn : List ℕ) (at lock : ℕ)
    (placed : ltb 0x1000 at ≡ true) where
  -- the state of the lock, as it is changed by a check
  abbrev change : SpinCall → ℤ → ℤ → Action (GlobalState T) Unit
  change c prepost add_this =
      generic_lock_state lock_fuel fn prepost lock (origin_of c) (type_of c) add_this

  state-Lifts :
      (c : SpinCall) (prepost add_this : ℤ)
      → Lifts {T = T}
          (lock_state_check (origin_of c) (type_of c) add_this fn prepost at lock)
          (change c prepost add_this)
  unfolding lock_state_check
  state-Lifts c prepost add_this f free =
      check_routine-Lifts (tfassert (ltb 0x1000 at) >> change c prepost add_this) f free
      ∙ rw placed refl

  lock-Lifts :
      (c : SpinCall) (prepost : ℤ)
      → Lifts {T = T} (lock_call c fn prepost at lock) (change c prepost (pos 1))
  lock-Lifts c prepost f free =
      ap (λ check. check fn prepost at lock f) (lock_call_lem c)
      ∙ state-Lifts c prepost (pos 1) f free

  unlock-Lifts :
      (c : SpinCall) (prepost : ℤ)
      → Lifts {T = T} (unlock_call c fn prepost at lock) (change c prepost minus_one)
  unlock-Lifts c prepost f free =
      ap (λ check. check fn prepost at lock f) (unlock_call_lem c)
      ∙ state-Lifts c prepost minus_one f free

  abbrev changes : SpinCall → Action (GlobalState T) Unit
  changes c =
      change c (pos 0) (pos 1)
      >> (change c (pos 1) (pos 1) >> (change c (pos 0) minus_one >> change c (pos 1) minus_one))

  section-Lifts : (c : SpinCall) → Lifts {T = T} (section_checks c fn at lock) (changes c)
  unfolding section_checks
  section-Lifts c = then-Lifts _ _ (change c (pos 0) (pos 1)) _ (lock-Lifts c (pos 0)) (
      then-Lifts _ _ (change c (pos 1) (pos 1)) _ (lock-Lifts c (pos 1)) (
        then-Lifts _ _ (change c (pos 0) minus_one) (change c (pos 1) minus_one)
          (unlock-Lifts c (pos 0)) (unlock-Lifts c (pos 1))))

  module _ (pointer : ltb 0x1000 lock ≡ true) (c : SpinCall) (s : GlobalState T)
      (held : Holds s lock none) where
    -- The lock is not changed before it is taken, nor after it is released.
    before_lock : change c (pos 0) (pos 1) s ≡ ok (tt, s)
    unfolding generic_lock_state
    before_lock = rw (held.is_tracked, pointer) refl

    after_unlock : change c (pos 1) minus_one s ≡ ok (tt, s)
    unfolding generic_lock_state
    after_unlock = rw (held.is_tracked, pointer) refl

module _ {T : Type 0} ⦃h : Hashtable T HValue⦄ (c : SpinCall) (fn : List ℕ) (at lock : ℕ)
    (f : Framework T) (free : f.global_lock_acquired ≡ 0) (placed : ltb 0x1000 at ≡ true)
    (pointer : ltb 0x1000 lock ≡ true) (held : Holds f.global_state lock none)
    (nested : IsNested f.global_state)
    (room : f.global_state.blocking_context_current + 1 < max_nesting) where
  -- A section under a spinning lock, with the checks before and after the two calls that take and
  -- release the lock: where the lock of the framework is free, the argument and the lock are at
  -- plausible addresses, the lock is tracked and held by nobody, and the blocking stack has room, all
  -- four checks return. Nobody holds the lock afterwards, both stacks of contexts are as they were
  -- before, and nothing but the global state has changed.
  pub section-restores :
      (g : GlobalState T) × (section_checks c fn at lock f ≡ ok (tt, record f { global_state = g }))
      × Holds g lock none
      × (g.blocking_context_current ≡ f.global_state.blocking_context_current)
      × (blocking_stack g ≡ blocking_stack f.global_state)
      × (user_stack g ≡ user_stack f.global_state)
  section-restores =
      let (g, ran, left, current, blocking_same, user_same) =
        unlock-lock 1 fn f.global_state lock (origin_of c) (type_of c) held pointer (spin_kind c).1
          (spin_kind c).0 nested room in
      let m = change fn at lock placed c in
      let whole : changes fn at lock placed c f.global_state ≡ ok (tt, g) =
        ap
          (λ r. continue r (λ _. m (pos 1) (pos 1) >> (m (pos 0) minus_one >> m (pos 1) minus_one)))
          (before_lock fn at lock placed pointer c f.global_state held)
        ∙ then_assoc (m (pos 1) (pos 1)) (m (pos 0) minus_one) (m (pos 1) minus_one) f.global_state
        ∙ ap (λ r. continue r (λ _. m (pos 1) minus_one)) ran
        ∙ after_unlock fn at lock placed pointer c g left in
      (
        g,
        Lifts-ok (section_checks c fn at lock) (changes fn at lock placed c) f g
            (section-Lifts fn at lock placed c) free whole,
        left,
        current,
        blocking_same,
        user_same,
      )
