-- ===== src/KernelState/Nesting.antt =====
-- push_kernel_state and pop_kernel_state of gtf/test_state.c where calls are nested: every entry
-- point's check pushes before the call and pops after it.
use native.Mathlib.Numerals.{add-one}
use driver_optimizer.Prelude.{
  ℕ, zero, suc, ◌+◌, ◌-◌, ◌<◌, max, ◌≡◌, refl, sym, ap, ◌∙◌, List, [], ◌∷◌, arith, take, set,
}
use driver_optimizer.Action.{Action, ok, pure, ◌>>◌}
use driver_optimizer.State.{BlockingContext, UserContext, GlobalState, max_nesting}
use driver_optimizer.KernelState.{
  pop_blocking_state, pop_user_state, push_kernel_state, pop_kernel_state,
}
use driver_optimizer.KernelState.Stack.{
  IsNested, Restores, blocking_pushed, user_pushed, push_blocking_state_lem, push_user_state_lem,
  blocking_pushed-IsNested, user_pushed-IsNested, take-set,
}

module _ {A : Type 0} where
  -- Lists that agree on n + 2 elements agree on n + 1.
  take_shorter :
      (xs ys : List A) (n : ℕ)
      → take (suc (suc n)) xs ≡ take (suc (suc n)) ys
      → take (suc n) xs ≡ take (suc n) ys
  take_shorter xs ys n e = take_of_take xs n ∙ ap (take (suc n)) e ∙ sym (take_of_take ys n)
    where
      take_of_take : (zs : List A) (n : ℕ) → take (suc n) zs ≡ take (suc n) (take (suc (suc n)) zs)
      take_of_take [] n = refl
      take_of_take (z ∷ zs) zero = refl
      take_of_take (z ∷ zs) (suc n) = ap (λ l. z ∷ l) (take_of_take zs n)

  -- What stands below an element that was added and is then dropped.
  below_pushed :
      (xs ys : List A) (n m : ℕ) (v : A)
      → m ≡ n + 1
      → take (suc m) ys ≡ take (suc (n + 1)) (set xs (n + 1) v)
      → take (suc (m - 1)) ys ≡ take (suc n) xs
  below_pushed xs ys n m v em e =
      let same : take (suc (suc n)) ys ≡ take (suc (suc n)) (set xs (suc n) v) =
        rw (em, add-one) at e in
      let down : m - 1 ≡ n = omega arith in
      rw down (take_shorter ys (set xs (suc n) v) n same ∙ take-set xs n (suc n) v (omega arith))

module _ {T : Type 0} (s : GlobalState T) where
  Restores-refl : IsNested s → Restores s s
  Restores-refl nested = record {
    blocking_current = refl;
    blocking = refl;
    user_current = refl;
    user = refl;
    nested = nested;
    rest = record { device_irq_disabled = refl; objs = refl; objs_dirty = refl };
  }

  Restores-trans : {t u : GlobalState T} → Restores s t → Restores t u → Restores s u
  Restores-trans f g = record {
    blocking_current = g.blocking_current ∙ f.blocking_current;
    blocking = g.blocking ∙ f.blocking;
    user_current = g.user_current ∙ f.user_current;
    user = g.user ∙ f.user;
    nested = g.nested;
    rest = record {
      device_irq_disabled = g.rest.device_irq_disabled ∙ f.rest.device_irq_disabled;
      objs = g.rest.objs ∙ f.rest.objs;
      objs_dirty = g.rest.objs_dirty ∙ f.rest.objs_dirty;
    };
  }

module _ {T : Type 0} (s : GlobalState T) (b : BlockingContext) (u : UserContext) where
  abbrev entered : GlobalState T
  entered = user_pushed (blocking_pushed s b) u

  -- both stacks have room for k more contexts
  abbrev HasRoom : ℕ → Type 0
  HasRoom k =
      (s.blocking_context_current + k < max_nesting) × (s.user_context_current + k < max_nesting)

  enter : IsNested s → HasRoom 1 → push_kernel_state b u s ≡ ok (tt, entered)
  unfolding push_kernel_state
  enter nested room = rw (push_blocking_state_lem s b nested room.0) (
      push_user_state_lem (blocking_pushed s b) u (blocking_pushed-IsNested s b nested room.0)
        room.1)

  entered-IsNested : IsNested s → HasRoom 1 → IsNested entered
  entered-IsNested nested room =
      user_pushed-IsNested (blocking_pushed s b) u (blocking_pushed-IsNested s b nested room.0)
        room.1

module _ {T : Type 0} (t : GlobalState T) where
  abbrev left : GlobalState T
  left = record t {
    blocking_context_current = t.blocking_context_current - 1;
    user_context_current = t.user_context_current - 1;
  }

  leave :
      0 < t.blocking_context_current
      → 0 < t.user_context_current
      → pop_kernel_state t ≡ ok (tt, left)
  unfolding pop_kernel_state pop_blocking_state pop_user_state
  leave b u = ground arith

module _ {T : Type 0} (s : GlobalState T) (b : BlockingContext) (u : UserContext) where
  -- Where the body restores what it was given, the pops restore what the pushes were given.
  left-Restores :
      (t : GlobalState T) → IsNested s → Restores (entered s b u) t → Restores s (left t)
  left-Restores t nested r = record {
    blocking_current = omega (arith, r.blocking_current);
    blocking =
        below_pushed s.blocking_context t.blocking_context s.blocking_context_current
          t.blocking_context_current b r.blocking_current r.blocking;
    user_current = omega (arith, r.user_current);
    user =
        below_pushed s.user_context t.user_context s.user_context_current t.user_context_current u
          r.user_current r.user;
    nested = record {
      blocking_length = r.nested.blocking_length;
      blocking_inside = omega (arith, r.nested.blocking_inside);
      user_length = r.nested.user_length;
      user_inside = omega (arith, r.nested.user_inside);
    };
    rest = record {
      device_irq_disabled = r.rest.device_irq_disabled;
      objs = r.rest.objs;
      objs_dirty = r.rest.objs_dirty;
    };
  }

-- A run of checked calls: each pushes its contexts, makes the calls of its body and pops, and then
-- the calls after it follow.
pub data Calls : Type 0 where
  none_left : Calls
  call : BlockingContext → UserContext → Calls → Calls → Calls

-- How deep the calls nest.
abbrev pub depth : Calls → ℕ
depth none_left = 0
depth (call b u body rest) = max (suc (depth body)) (depth rest)

module _ {T : Type 0} where
  unfoldable pub run_calls : Calls → Action (GlobalState T) Unit
  run_calls none_left = pure tt
  run_calls (call b u body rest) = do
    push_kernel_state b u
    run_calls body
    pop_kernel_state
    run_calls rest

  -- Calls that nest no deeper than the room that both stacks have left all return, and both stacks,
  -- the interrupt switch and the object table are then as they were before.
  pub run_calls-Restores :
      (calls : Calls) (s : GlobalState T)
      → IsNested s
      → s.blocking_context_current + depth calls < max_nesting
      → s.user_context_current + depth calls < max_nesting
      → (t : GlobalState T) × (run_calls calls s ≡ ok (tt, t)) × Restores s t
  unfolding run_calls
  run_calls-Restores none_left s nested broom uroom = (s, refl, Restores-refl s nested)
  run_calls-Restores (call b u body rest) s nested broom uroom =
      let room : HasRoom s b u 1 = (omega arith, omega arith) in
      let (t, ran, restored) =
        run_calls-Restores body (entered s b u) (entered-IsNested s b u nested room) (omega arith)
          (omega arith) in
      let back = left-Restores s b u t nested restored in
      let (v, ran', restored') =
        run_calls-Restores rest (left t) back.nested (omega (arith, back.blocking_current))
          (omega (arith, back.user_current)) in
      (
        v,
        rw
            (
              enter s b u nested room,
              ran,
              leave t (omega (arith, restored.blocking_current))
                  (omega (arith, restored.user_current)),
            )
            ran',
        Restores-trans s {t = left t} {u = v} back restored',
      )
