-- ===== src/Locks/Recursion.antt =====
-- generic_lock_state of gtf/test_state.c calls itself where it finds no entry for a lock. "Call
-- ourselves recursively this one time", says its comment.
use driver_optimizer.Prelude.{
  ap, sym, some, Bool-cases, Option-cases, inl, inr, ◌∙◌, Option-cases, ◌≢◌, Option, arith, is_none,
  false, [], Bool, ℕ, zero, suc, ◌≡◌, refl, true, ◌||◌, none, List, pos, minus_one, ℤ, ◌==ℤ◌,
}
use driver_optimizer.Action.{
  assertion, ◌>>◌, tfassert-true, Result, continue, ok, stop, out_of_fuel,
}
use driver_optimizer.Action.Terminates.{Terminates, terminates_rules}
use driver_optimizer.Hashtable.{Hashtable}
use driver_optimizer.State.{HValue, GlobalState, LockType, lock_undefined, BlockingContext}
use driver_optimizer.KernelState.{kernel_blocking_state, pop_blocking_state, push_blocking_state}
use driver_optimizer.ObjectTracker.{objs_value, objs_remove}
use driver_optimizer.ObjectTracker.Table.{tracked}
use driver_optimizer.Locks.{
  found_or_again, known_value, objs_value, known_value, generic_lock_allocator, ◌∷◌, change_lock,
  acquire, unlock, store_value, transfer, bump, lock_kernel_state, verify_lock_state, verify_from,
  generic_lock_state,
}

module _ {T : Type 0} ⦃h : Hashtable T HValue⦄ where
  -- On the postcondition branch the entry is not made: for a lock that is not tracked, whether it is
  -- taken or released, the function calls itself without end.
  pub postcondition_recurses :
      (fuel : ℕ) (fn : List ℕ) (s : GlobalState T) (lock origin : ℕ) (lock_type : LockType)
      (add_this : ℤ)
      → tracked s lock ≡ none
      → (add_this ==ℤ minus_one || add_this ==ℤ pos 1) ≡ true
      → generic_lock_state fuel fn (pos 1) lock origin lock_type add_this s ≡ stop out_of_fuel
  unfolding generic_lock_state
  postcondition_recurses zero fn s lock origin lock_type add_this absent sign = refl
  postcondition_recurses (suc fuel) fn s lock origin lock_type add_this absent sign =
      rw (sign, absent)
        (postcondition_recurses fuel fn s lock origin lock_type add_this absent sign)

module _ {S : Type 0} where
  verify_from-Terminates :
      (states : List ℕ) (found : ℕ) → Terminates {S = S} (verify_from states found)
  unfolding verify_from
  verify_from-Terminates [] found = search terminates_rules
  verify_from-Terminates (state ∷ states) found =
      search (terminates_rules, verify_from-Terminates states)

  verify_lock_state-Terminates : (value : HValue) → Terminates {S = S} (verify_lock_state value)
  unfolding verify_lock_state
  verify_lock_state-Terminates value = search (terminates_rules, verify_from-Terminates)

module _ {T : Type 0} where
  push-Terminates : (c : BlockingContext) → Terminates {S = GlobalState T} (push_blocking_state c)
  unfolding push_blocking_state
  push-Terminates c = search terminates_rules

  pop-Terminates : Terminates {S = GlobalState T} pop_blocking_state
  unfolding pop_blocking_state
  pop-Terminates = search terminates_rules

  kernel_blocking_state-Terminates : Terminates {S = GlobalState T} kernel_blocking_state
  unfolding kernel_blocking_state
  kernel_blocking_state-Terminates = search terminates_rules

  ruleset context_rules =
      (terminates_rules, push-Terminates, pop-Terminates, kernel_blocking_state-Terminates)

  lock_kernel_state-Terminates :
      (origin : ℕ) (lock_type : LockType) (add_this : ℤ)
      → Terminates {S = GlobalState T} (lock_kernel_state origin lock_type add_this)
  unfolding lock_kernel_state
  lock_kernel_state-Terminates origin lock_undefined add_this = search context_rules
  lock_kernel_state-Terminates origin _ add_this = search context_rules

module _ {T : Type 0} ⦃h : Hashtable T HValue⦄ where
  bump-Terminates :
      (lock_type : LockType) (add_this : ℤ) (value : HValue)
      → Terminates {S = GlobalState T} (bump lock_type add_this value)
  unfolding bump
  bump-Terminates lock_type add_this value = search terminates_rules

  transfer-Terminates :
      (generic : Bool) (lock_type : LockType) (add_this : ℤ) (value : HValue)
      → Terminates {S = GlobalState T} (transfer generic lock_type add_this value)
  unfolding transfer
  transfer-Terminates false lock_type add_this value = search terminates_rules
  transfer-Terminates true lock_type add_this value = search (terminates_rules, bump-Terminates)

  store_value-Terminates :
      (lock : ℕ) (value : HValue) → Terminates {S = GlobalState T} (store_value lock value)
  unfolding store_value
  store_value-Terminates lock value = search terminates_rules

  ruleset lock_rules = (
    terminates_rules, verify_lock_state-Terminates, lock_kernel_state-Terminates, bump-Terminates,
    transfer-Terminates, store_value-Terminates,
  )

  unlock-Terminates :
      (lock origin : ℕ) (lock_type : LockType) (add_this : ℤ) (value : HValue)
      → Terminates {S = GlobalState T} (unlock lock origin lock_type add_this value)
  unlock-Terminates lock origin lock_type add_this value =
      unfold unlock in search lock_rules depth 12

  acquire-Terminates :
      (lock origin : ℕ) (lock_type : LockType) (add_this : ℤ) (value : HValue)
      → Terminates {S = GlobalState T} (acquire lock origin lock_type add_this value)
  acquire-Terminates lock origin lock_type add_this value =
      unfold acquire in search lock_rules depth 12

  change_lock-Terminates :
      (prepost : ℤ) (lock origin : ℕ) (lock_type : LockType) (add_this : ℤ) (value : HValue)
      → Terminates {S = GlobalState T} (change_lock prepost lock origin lock_type add_this value)
  change_lock-Terminates prepost lock origin lock_type add_this value =
      unfold change_lock in search (lock_rules, unlock-Terminates, acquire-Terminates) depth 8

  -- The entry that the allocator has made is there.
  allocator-tracks :
      (fn : List ℕ) (lock origin : ℕ) (s t : GlobalState T)
      → generic_lock_allocator fn (pos 0) lock origin s ≡ ok (tt, t)
      → is_none (tracked t lock) ≡ false
  unfolding generic_lock_allocator
  allocator-tracks fn lock origin s t e = ground arith

  known_value-Terminates :
      (fn : List ℕ) (lock origin : ℕ) (o : Option HValue)
      → Terminates {S = GlobalState T} (known_value fn lock origin o)
  known_value-Terminates fn lock origin none = unfold objs_value in search terminates_rules depth 8
  known_value-Terminates fn lock origin (some v) = unfold objs_remove in search terminates_rules

  allocator-Terminates :
      (fn : List ℕ) (prepost : ℤ) (lock origin : ℕ)
      → Terminates {S = GlobalState T} (generic_lock_allocator fn prepost lock origin)
  allocator-Terminates fn prepost lock origin =
      unfold generic_lock_allocator in search (terminates_rules, known_value-Terminates) depth 14

module _ {T : Type 0} ⦃h : Hashtable T HValue⦄ (fuel : ℕ) (fn : List ℕ) (prepost : ℤ)
    (lock origin : ℕ) (lock_type : LockType) (add_this : ℤ) (s : GlobalState T)
    (sign : (add_this ==ℤ minus_one || add_this ==ℤ pos 1) ≡ true) where
  -- One call: on a tracked lock, and on one that is not.
  step_tracked :
      (v : HValue)
      → tracked s lock ≡ some v
      → generic_lock_state (suc fuel) fn prepost lock origin lock_type add_this s
        ≡ change_lock prepost lock origin lock_type add_this v s
  unfolding generic_lock_state
  step_tracked v known =
      tfassert-true _ _ s sign
      ∙ ap
          (λ o.
            found_or_again
              (generic_lock_allocator fn prepost lock origin
                >> generic_lock_state fuel fn prepost lock origin lock_type add_this)
              (change_lock prepost lock origin lock_type add_this) o s)
          known

  step_absent :
      tracked s lock ≡ none
      → generic_lock_state (suc fuel) fn prepost lock origin lock_type add_this s
        ≡ (generic_lock_allocator fn prepost lock origin
              >> generic_lock_state fuel fn prepost lock origin lock_type add_this)
            s
  unfolding generic_lock_state
  step_absent absent =
      tfassert-true _ _ s sign
      ∙ ap
          (λ o.
            found_or_again
              (generic_lock_allocator fn prepost lock origin
                >> generic_lock_state fuel fn prepost lock origin lock_type add_this)
              (change_lock prepost lock origin lock_type add_this) o s)
          absent

module _ {T : Type 0} ⦃h : Hashtable T HValue⦄ (fn : List ℕ) (prepost : ℤ) (lock origin : ℕ)
    (lock_type : LockType) (add_this : ℤ) where
  -- A call that is neither for taking nor for releasing a lock ends by an assertion.
  no_sign :
      (fuel : ℕ) (s : GlobalState T)
      → (add_this ==ℤ minus_one || add_this ==ℤ pos 1) ≡ false
      → generic_lock_state (suc fuel) fn prepost lock origin lock_type add_this s ≡ stop assertion
  unfolding generic_lock_state
  no_sign fuel s other = rw other

  -- A call for a tracked lock does not recur, whatever the bound.
  tracked_returns :
      (fuel : ℕ) (s : GlobalState T)
      → is_none (tracked s lock) ≡ false
      → generic_lock_state (suc fuel) fn prepost lock origin lock_type add_this s ≢ stop out_of_fuel
  tracked_returns fuel s known p =
      elim (Bool-cases (add_this ==ℤ minus_one || add_this ==ℤ pos 1)) [
        | inr other ↦ cc (no_sign fuel s other)
        | inl sign ↦ elim (Option-cases (tracked s lock)) [
          | inl e ↦ absurd (ground arith)
          | inr (v, e) ↦
              (change_lock-Terminates prepost lock origin lock_type add_this v).at s
                (sym (step_tracked fuel fn prepost lock origin lock_type add_this s sign v e) ∙ p)
        ]
      ]

module _ {T : Type 0} ⦃h : Hashtable T HValue⦄ where
  -- On the precondition branch the comment holds: with a bound of two calls the function ends by
  -- itself, for every lock, tracked or not, every way of taking or releasing it and every state.
  pub precondition_returns :
      (fuel : ℕ) (fn : List ℕ) (lock origin : ℕ) (lock_type : LockType) (add_this : ℤ)
      (s : GlobalState T)
      → generic_lock_state (suc (suc fuel)) fn (pos 0) lock origin lock_type add_this s
        ≢ stop out_of_fuel
  precondition_returns fuel fn lock origin lock_type add_this s p =
      elim (Option-cases (tracked s lock)) [
        | inr (v, known) ↦
            tracked_returns fn (pos 0) lock origin lock_type add_this (suc fuel) s (rw known) p
        | inl absent ↦ elim (Bool-cases (add_this ==ℤ minus_one || add_this ==ℤ pos 1)) [
          | inr other ↦ cc (no_sign fn (pos 0) lock origin lock_type add_this (suc fuel) s other)
          | inl sign ↦ later (generic_lock_allocator fn (pos 0) lock origin s) refl (
              sym (step_absent (suc fuel) fn (pos 0) lock origin lock_type add_this s sign absent)
              ∙ p)
        ]
      ]
    where
      later :
          (r : Result {0} (Unit {0} × GlobalState T))
          → generic_lock_allocator fn (pos 0) lock origin s ≡ r
          → continue r
              (λ _. generic_lock_state (suc fuel) fn (pos 0) lock origin lock_type add_this)
            ≢ stop out_of_fuel
      later (ok (u, t)) e =
          tracked_returns fn (pos 0) lock origin lock_type add_this fuel t
            (allocator-tracks fn lock origin s t e)
      later (stop x) e = λ q. (allocator-Terminates fn (pos 0) lock origin).at s (e ∙ ground arith)
