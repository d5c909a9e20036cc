-- ===== src/KernelState/Stack.antt =====
-- The two arrays of contexts of gtf/test_state.c implement stacks: what a push and a pop do to the
-- stack that an array holds, and what happens where the array is full.
use native.Mathlib.Numerals.{add-one}
use driver_optimizer.Prelude.{
  ℕ, zero, suc, ◌+◌, ◌<◌, ◌≡◌, refl, ap, ◌∙◌, List, [], ◌∷◌, ◌++◌, arith, length, take, set, ltb,
  if◌then◌else◌, length-set,
}
use driver_optimizer.Action.{ok, stop, out_of_bounds}
use driver_optimizer.State.{BlockingContext, UserContext, GlobalState, max_nesting}
use driver_optimizer.KernelState.{push_blocking_state, push_user_state}

module _ {A : Type 0} where
  -- A write just past the first n + 1 elements adds one to them.
  pub take-set_next :
      (xs : List A) (n : ℕ) (v : A)
      → suc n < length xs
      → take (suc (suc n)) (set xs (suc n) v) ≡ take (suc n) xs ++ v ∷ []
  take-set_next [] n v h = elim h [ ]
  take-set_next (x ∷ []) n v h = absurd (omega arith)
  take-set_next (x ∷ y ∷ xs) zero v h = refl
  take-set_next (x ∷ y ∷ xs) (suc n) v h =
      ap (λ l. x ∷ l) (take-set_next (y ∷ xs) n v (omega arith))

  -- A write past the first n + 1 elements leaves them.
  pub take-set :
      (xs : List A) (n i : ℕ) (v : A) → n < i → take (suc n) (set xs i v) ≡ take (suc n) xs
  take-set [] n i v h = refl
  take-set (x ∷ xs) n zero v h = absurd (omega arith)
  take-set (x ∷ xs) zero (suc i) v h = refl
  take-set (x ∷ xs) (suc n) (suc i) v h = ap (λ l. x ∷ l) (take-set xs n i v (omega arith))

module _ {T : Type 0} where
  -- the stack, the oldest context first
  abbrev pub blocking_stack : GlobalState T → List BlockingContext
  blocking_stack s = take (suc s.blocking_context_current) s.blocking_context

  abbrev pub user_stack : GlobalState T → List UserContext
  user_stack s = take (suc s.user_context_current) s.user_context

  -- The arrays have their declared lengths, and the indices lie inside.
  pub record IsNested (s : GlobalState T) : Type 0 where
    pub blocking_length : length s.blocking_context ≡ max_nesting
    pub blocking_inside : s.blocking_context_current < max_nesting
    pub user_length : length s.user_context ≡ max_nesting
    pub user_inside : s.user_context_current < max_nesting

  -- What is left alone by the contexts' operations.
  pub record SameRest (s t : GlobalState T) : Type 0 where
    pub device_irq_disabled : t.device_irq_disabled ≡ s.device_irq_disabled
    pub objs : t.objs ≡ s.objs
    pub objs_dirty : t.objs_dirty ≡ s.objs_dirty

  -- The well-formed state `t` has the stacks of `s`.
  pub record Restores (s t : GlobalState T) : Type 0 where
    pub blocking_current : t.blocking_context_current ≡ s.blocking_context_current
    pub blocking : blocking_stack t ≡ blocking_stack s
    pub user_current : t.user_context_current ≡ s.user_context_current
    pub user : user_stack t ≡ user_stack s
    pub nested : IsNested t
    pub rest : SameRest s t

module _ {T : Type 0} (s : GlobalState T) (c : BlockingContext) where
  abbrev pub blocking_pushed : GlobalState T
  blocking_pushed = record s {
    blocking_context_current = s.blocking_context_current + 1;
    blocking_context = set s.blocking_context (s.blocking_context_current + 1) c;
  }

  pub push_blocking_state_lem :
      IsNested s
      → s.blocking_context_current + 1 < max_nesting
      → push_blocking_state c s ≡ ok (tt, blocking_pushed)
  unfolding push_blocking_state
  push_blocking_state_lem nested room = ground (arith, nested.blocking_length)

  pub blocking_pushed-IsNested :
      IsNested s → s.blocking_context_current + 1 < max_nesting → IsNested blocking_pushed
  blocking_pushed-IsNested nested room = record {
    blocking_length = length-set _ _ _ ∙ nested.blocking_length;
    blocking_inside = room;
    user_length = nested.user_length;
    user_inside = nested.user_inside;
  }

  pub blocking_stack-pushed :
      IsNested s
      → s.blocking_context_current + 1 < max_nesting
      → blocking_stack blocking_pushed ≡ blocking_stack s ++ c ∷ []
  blocking_stack-pushed nested room =
      rw add-one (take-set_next s.blocking_context s.blocking_context_current c (omega arith))

module _ {T : Type 0} (s : GlobalState T) (c : UserContext) where
  abbrev pub user_pushed : GlobalState T
  user_pushed = record s {
    user_context_current = s.user_context_current + 1;
    user_context = set s.user_context (s.user_context_current + 1) c;
  }

  pub push_user_state_lem :
      IsNested s
      → s.user_context_current + 1 < max_nesting
      → push_user_state c s ≡ ok (tt, user_pushed)
  unfolding push_user_state
  push_user_state_lem nested room = ground (arith, nested.user_length)

  pub user_pushed-IsNested :
      IsNested s → s.user_context_current + 1 < max_nesting → IsNested user_pushed
  user_pushed-IsNested nested room = record {
    blocking_length = nested.blocking_length;
    blocking_inside = nested.blocking_inside;
    user_length = length-set _ _ _ ∙ nested.user_length;
    user_inside = room;
  }

  pub user_stack-pushed :
      IsNested s
      → s.user_context_current + 1 < max_nesting
      → user_stack user_pushed ≡ user_stack s ++ c ∷ []
  user_stack-pushed nested room =
      rw add-one (take-set_next s.user_context s.user_context_current c (omega arith))

module _ {T : Type 0} where
  -- On arrays of their declared lengths, pushing a blocking context below the limit returns, puts
  -- that context on top of the blocking stack, keeps the arrays well-formed, and leaves the user
  -- stack, the interrupt switch and the object table as they were.
  pub push-implements-append :
      (s : GlobalState T) (c : BlockingContext)
      → IsNested s
      → s.blocking_context_current + 1 < max_nesting
      → (t : GlobalState T) × (push_blocking_state c s ≡ ok (tt, t))
        × (blocking_stack t ≡ blocking_stack s ++ c ∷ [])
        × (user_stack t ≡ user_stack s)
        × IsNested t
        × SameRest s t
  push-implements-append s c nested room = (
    blocking_pushed s c,
    push_blocking_state_lem s c nested room,
    blocking_stack-pushed s c nested room,
    refl,
    blocking_pushed-IsNested s c nested room,
    record { device_irq_disabled = refl; objs = refl; objs_dirty = refl },
  )

  -- On arrays of their declared lengths, a push returns below the limit; at the limit it writes
  -- past the end of its array, so the path is never ended by the assertion that tests the index.
  pub push_full :
      (s : GlobalState T) (b : BlockingContext) (u : UserContext)
      → IsNested s
      → (push_blocking_state b s ≡ (
          if ltb (s.blocking_context_current + 1) max_nesting
          then ok (tt, blocking_pushed s b)
          else stop out_of_bounds))
        × (push_user_state u s ≡ (
            if ltb (s.user_context_current + 1) max_nesting
            then ok (tt, user_pushed s u)
            else stop out_of_bounds))
  unfolding push_blocking_state push_user_state
  push_full s b u nested =
      (ground (arith, nested.blocking_length), ground (arith, nested.user_length))
