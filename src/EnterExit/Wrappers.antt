-- ===== src/EnterExit/Wrappers.antt =====
-- The functions that the generated wrappers call, gtf/enter_exit.c. The parameters are the driver's
-- interrupt handlers, the registration of its functions, and the name of the function whose paths
-- are all explored.
use driver_optimizer.Prelude.{
  false, true, ℕ, ◌==◌, not, ◌&&◌, ◌||◌, Bool, List, ℤ, pos, minus_one, ◌==ℤ◌, if◌then◌else◌,
}
use driver_optimizer.Action.{Action, path_killed, ◌>>=◌, ◌>>◌, pure, halt, get, put, tfassert}
use driver_optimizer.Hashtable.{Hashtable}
use driver_optimizer.State.{HValue, Kernel}
use driver_optimizer.ObjectTracker.{reset_new_objects}
use driver_optimizer.GlobalLock.{acquire_global_lock, release_global_lock}
use driver_optimizer.Framework.{Framework, EnterExit, on_enter_exit, on_lock, on_global_state}
use driver_optimizer.Irq.Handlers.{call_interrupt_handlers}
use driver_optimizer.EnterExit.{
  WrapperType, stub_wrapper, prepost_fn, entrance, exit, annotated, handle_max_coverage,
  verify_invariants, verify_retval,
}

abbrev pub is_stub : WrapperType → Bool
is_stub stub_wrapper = true
is_stub prepost_fn = false

-- Is the call stack empty?
abbrev pub outermost : EnterExit → Bool
outermost s = s.driver_call_stack ==ℤ pos 0

module _ {T : Type 0} ⦃h : Hashtable T HValue⦄ ⦃k : Kernel⦄ (g_sym_starting_fn : List ℕ) where
  -- The part of gen_exit_driver under the lock. `is_symbolic` says whether the result has a symbolic
  -- value in S2E.
  unfoldable pub exit_checks : List ℕ → WrapperType → Bool → ℕ → Bool → Action (Framework T) Unit
  exit_checks fn wrapper_type retval_valid retval is_symbolic = do
    on_enter_exit (handle_max_coverage g_sym_starting_fn fn exit)
    retval' ←
        on_enter_exit (if retval_valid && not is_symbolic then annotated retval else pure retval)
    verify_invariants fn minus_one wrapper_type
    f ← get
    if outermost f.enter_exit
        then (do
          on_enter_exit (verify_retval wrapper_type exit retval_valid retval')
          on_global_state reset_new_objects)
        else pure tt

module _ {T : Type 0} ⦃h : Hashtable T HValue⦄ ⦃k : Kernel⦄
    (handler : ℕ → ℕ → ℕ → Action (Framework T) Unit)
    (gen_register_all_param : Action (Framework T) Unit) (g_sym_starting_fn : List ℕ) where
  -- what is done once, at the first entry
  abbrev pub register_once : Action (Framework T) Unit
  register_once = do
    f ← get
    if f.enter_exit.first_time_in_driver == 1
        then (do
          gen_register_all_param
          f' ← get
          put (record f' { enter_exit = record f'.enter_exit { first_time_in_driver = 0 } }))
        else pure tt

  unfoldable pub gen_enter_driver : List ℕ → ℕ → WrapperType → Bool → ℕ → Action (Framework T) ℤ
  unfolding acquire_global_lock release_global_lock
  gen_enter_driver fn line wrapper_type retval_valid retval = do
    register_once
    if is_stub wrapper_type then call_interrupt_handlers handler line else pure tt
    on_lock acquire_global_lock
    f ← get
    if outermost f.enter_exit
        then on_enter_exit (verify_retval wrapper_type entrance retval_valid retval)
        else pure tt
    verify_invariants fn (pos 1) wrapper_type
    on_enter_exit (handle_max_coverage g_sym_starting_fn fn entrance)
    on_lock release_global_lock
    f' ← get
    pure f'.enter_exit.driver_call_stack

  unfoldable pub gen_exit_driver :
      List ℕ → ℕ → WrapperType → Bool → ℕ → Bool → Action (Framework T) ℤ
  unfolding acquire_global_lock release_global_lock exit_checks
  gen_exit_driver fn line wrapper_type retval_valid retval is_symbolic = do
    on_lock acquire_global_lock
    exit_checks g_sym_starting_fn fn wrapper_type retval_valid retval is_symbolic
    on_lock release_global_lock
    f ← get
    if not (is_stub wrapper_type) && outermost f.enter_exit
        then call_interrupt_handlers handler line
        else pure tt
    f' ← get
    pure f'.enter_exit.driver_call_stack

abbrev pub mark_bad_path : Action EnterExit Unit
mark_bad_path = do s ← get; put (record s { bad_path = 1 })

module _ {T : Type 0} where
  -- `orig_retval` is the pointer that the kernel returned, and `chosen` the one that S2E puts in its
  -- place; the driver goes on with the first result.
  unfoldable pub gen_make_symbolic_ptr : ℕ → ℕ → Action (Framework T) (ℕ × ℤ)
  unfolding acquire_global_lock release_global_lock
  gen_make_symbolic_ptr orig_retval chosen = do
    f ← get
    if f.enter_exit.g_sym_retval ==ℤ pos 0 then pure (orig_retval, pos 0) else do
      on_lock acquire_global_lock
      on_enter_exit (
          if chosen == orig_retval
          then pure tt
          else if chosen == 0
          then mark_bad_path
          else halt path_killed)
      on_lock release_global_lock
      pure (chosen, f.enter_exit.g_sym_retval)

  -- A result that is read as an unsigned number of 1, 2, 4 or 8 bytes, as `size` says.
  unfoldable pub gen_make_symbolic_int : Kernel → ℕ → ℕ → ℕ → Action (Framework T) (ℕ × ℤ)
  unfolding acquire_global_lock release_global_lock
  gen_make_symbolic_int k size orig_retval chosen = do
    f ← get
    if f.enter_exit.g_sym_retval ==ℤ pos 0 then pure (orig_retval, pos 0) else do
      on_lock acquire_global_lock
      tfassert (size == 1 || size == 2 || size == 4 || size == 8)
      on_enter_exit (
          if chosen == orig_retval
          then pure tt
          else if k.is_err chosen
          then mark_bad_path
          else halt path_killed)
      on_lock release_global_lock
      pure (chosen, f.enter_exit.g_sym_retval)
