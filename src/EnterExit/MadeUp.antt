-- ===== src/EnterExit/MadeUp.antt =====
-- A result that the kernel did not return: the driver is given NULL in place of a pointer, and the path
-- is kept from returning to the kernel with success, gtf/enter_exit.c.
use driver_optimizer.Prelude.{ℕ, ◌≡◌, ◌≢◌, List, [], ◌∷◌, Bool, true, false, ℤ, pos, ◌==ℤ◌, arith}
use driver_optimizer.Action.{ok}
use driver_optimizer.Hashtable.{Hashtable}
use driver_optimizer.State.{HValue, Kernel}
use driver_optimizer.Framework.{Framework}
use driver_optimizer.EnterExit.{prepost_fn}
use driver_optimizer.EnterExit.Wrappers.{gen_make_symbolic_ptr, exit_checks}
use driver_optimizer.EnterExit.CallStack.{with_running}
use driver_optimizer.EnterExit.Exits.{outermost_exit}

module _ {T : Type 0} (f t : Framework T) (orig_retval chosen retval : ℕ) (mode : ℤ) where
  -- A pointer other than the kernel's is NULL, and is given on a bad path where results are symbolic.
  made_up :
      gen_make_symbolic_ptr orig_retval chosen f ≡ ok ((retval, mode), t)
      → retval ≢ orig_retval
      → (retval ≡ 0) × (t.enter_exit.bad_path ≡ 1) × ((t.enter_exit.g_sym_retval ==ℤ pos 0) ≡ false)
  unfolding gen_make_symbolic_ptr
  made_up e other = ground arith

  module _ ⦃h : Hashtable T HValue⦄ ⦃k : Kernel⦄ where
    -- A made-up result is NULL and never reaches the kernel as a success: where
    -- gen_make_symbolic_ptr gives the driver another pointer than the kernel's, that pointer is NULL,
    -- and from any later state with the same mode of results and the same mark of a bad path, under
    -- the lock of the framework and where IS_ERR_VALUE does not hold of 0, the return of the driver's
    -- outermost function, with any result, does not come back: the path ends.
    pub made_up_ends :
        (later : Framework T) (g_sym_starting_fn fn : List ℕ) (result : ℕ) (is_symbolic : Bool)
        (out : Unit × Framework T)
        → gen_make_symbolic_ptr orig_retval chosen f ≡ ok ((retval, mode), t)
        → retval ≢ orig_retval
        → later.enter_exit.bad_path ≡ t.enter_exit.bad_path
        → later.enter_exit.g_sym_retval ≡ t.enter_exit.g_sym_retval
        → later.global_lock_acquired ≡ 1
        → k.is_err 0 ≡ false
        → (retval ≡ 0)
          × ¬ (
              exit_checks g_sym_starting_fn fn prepost_fn true result is_symbolic
                (with_running later (fn ∷ []))
              ≡ ok out)
    made_up_ends later g_sym_starting_fn fn result is_symbolic out e other bad symbolic held
          zero_ok =
        let given = made_up e other in
        let checked = outermost_exit g_sym_starting_fn later fn result is_symbolic held zero_ok in
        ((given).0, ground arith)
