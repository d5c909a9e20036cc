-- ===== src/Structs/Nesting.antt =====
-- A driver that the kernel enters again while it is entered: the checks of gtf/structs/ over a run.
use driver_optimizer.Prelude.{◌+◌, ◌<◌, ◌≡◌, pos, ap, ◌∙◌}
use driver_optimizer.Action.{ok, ◌>>◌}
use driver_optimizer.State.{GlobalState, BlockingContext, UserContext, blocking_yes, max_nesting}
use driver_optimizer.KernelState.{push_kernel_state, pop_kernel_state}
use driver_optimizer.KernelState.Stack.{IsNested, Restores}
use driver_optimizer.KernelState.Nesting.{depth, run_calls, run_calls-Restores}
use driver_optimizer.Framework.{Framework}
use driver_optimizer.Framework.Lifts.{Lifts, Lifts-ok, check_routine-Lifts, pure-Lifts, then-Lifts}
use driver_optimizer.Structs.{entry_point}
use driver_optimizer.Structs.Routines.{
  Routine, user_of, check_of, check_of_lem, Run, idle, entered, run_driver, calls_of,
}

module _ {T : Type 0} where
  enter-Lifts :
      (b : BlockingContext) (u : UserContext)
      → Lifts {T = T} (entry_point b u (pos 0)) (push_kernel_state b u)
  unfolding entry_point
  enter-Lifts b u = check_routine-Lifts (push_kernel_state b u)

  leave-Lifts :
      (b : BlockingContext) (u : UserContext)
      → Lifts {T = T} (entry_point b u (pos 1)) pop_kernel_state
  unfolding entry_point
  leave-Lifts b u = check_routine-Lifts pop_kernel_state

  routine-enters :
      (routine : Routine)
      → Lifts {T = T} (check_of routine (pos 0)) (push_kernel_state blocking_yes (user_of routine))
  routine-enters routine f free =
      ap (λ check. check (pos 0) f) (check_of_lem routine)
      ∙ enter-Lifts blocking_yes (user_of routine) f free

  routine-leaves : (routine : Routine) → Lifts {T = T} (check_of routine (pos 1)) pop_kernel_state
  routine-leaves routine f free =
      ap (λ check. check (pos 1) f) (check_of_lem routine)
      ∙ leave-Lifts blocking_yes (user_of routine) f free

  run-Lifts : (run : Run) → Lifts {T = T} (run_driver run) (run_calls (calls_of run))
  unfolding run_driver run_calls
  run-Lifts idle = pure-Lifts
  run-Lifts (entered routine body rest) =
      then-Lifts (check_of routine (pos 0))
        (run_driver body >> (check_of routine (pos 1) >> run_driver rest))
        (push_kernel_state blocking_yes (user_of routine))
        (run_calls (calls_of body) >> (pop_kernel_state >> run_calls (calls_of rest)))
        (routine-enters routine)
        (then-Lifts (run_driver body) (check_of routine (pos 1) >> run_driver rest)
          (run_calls (calls_of body)) (pop_kernel_state >> run_calls (calls_of rest))
          (run-Lifts body)
          (then-Lifts (check_of routine (pos 1)) (run_driver rest) pop_kernel_state
            (run_calls (calls_of rest)) (routine-leaves routine) (run-Lifts rest)))

  -- However the kernel enters again, while they run, the driver's file operations, area operations,
  -- bus functions but suspend and resume, and USB functions but probe and suspend, as long as the
  -- calls nest no deeper than the room that both stacks of contexts have left, and the lock of the
  -- framework is free: all checks return. Both stacks, the interrupt switch and the object table are
  -- then as they were before, the lock is free, and the rest of the framework has not changed.
  pub run_driver-Restores :
      (run : Run) (f : Framework T)
      → f.global_lock_acquired ≡ 0
      → IsNested f.global_state
      → f.global_state.blocking_context_current + depth (calls_of run) < max_nesting
      → f.global_state.user_context_current + depth (calls_of run) < max_nesting
      → (g : GlobalState T) × (run_driver run f ≡ ok (tt, record f { global_state = g }))
        × Restores f.global_state g
  run_driver-Restores run f free nested broom uroom =
      let (g, ran, restored) =
        run_calls-Restores (calls_of run) f.global_state nested broom uroom in
      (
        g,
        Lifts-ok (run_driver run) (run_calls (calls_of run)) f g (run-Lifts run) free ran,
        restored,
      )
