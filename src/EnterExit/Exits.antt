-- ===== src/EnterExit/Exits.antt =====
-- What becomes of a path on which the driver returns to the kernel, gtf/enter_exit.c.
use driver_optimizer.Prelude.{
  inl, inr, Bool-cases, some, some, ℕ, ◌≡◌, refl, ap, Bool, true, false, ◌&&◌, List, [], ◌∷◌, ℤ,
  pos, negsuc, ◌==ℤ◌, ◌==◌, arith, if◌then◌else◌, ==-refl, ==_iff,
}
use driver_optimizer.Action.{ok, stop, path_killed, assertion}
use driver_optimizer.Hashtable.{Hashtable}
use driver_optimizer.State.{HValue, Kernel}
use driver_optimizer.ObjectTracker.{reset_new_objects}
use driver_optimizer.Framework.{EnterExit, Framework, on_global_state}
use driver_optimizer.EnterExit.{
  annotated, same_string, prepost_fn, exit, verify_retval, handle_max_coverage,
}
use driver_optimizer.EnterExit.Wrappers.{exit_checks}
use driver_optimizer.EnterExit.Names.{left}
use driver_optimizer.EnterExit.CallStack.{with_running, ended}

same_string_refl : (s : List ℕ) → same_string s s ≡ true
same_string_refl [] = refl
same_string_refl (x ∷ s) = rw (==-refl x, same_string_refl s) refl

is_zero : (z : ℤ) → (z ==ℤ pos 0) ≡ true → z ≡ pos 0
is_zero (pos n) e = ap pos ((==_iff n 0).0 e)
is_zero (negsuc n) e = absurd cc

module _ (e : EnterExit) where
  -- an annotation is used up
  abbrev pub spent : EnterExit
  spent = record e { g_symdrive_annotations = pos 0 }

module _ ⦃k : Kernel⦄ (e : EnterExit) (left : e.driver_call_stack ≡ pos 0) (retval : ℕ) where
  verify_retval_lem :
      k.is_err 0 ≡ false
      → verify_retval prepost_fn exit true retval e ≡ (
          if e.g_symdrive_annotations ==ℤ pos 0 && k.is_err retval
          then stop path_killed
          else if e.g_sym_retval ==ℤ pos 0
          then ok (tt, spent e)
          else if e.g_sym_retval ==ℤ pos 1
          then stop path_killed
          else if e.g_sym_retval ==ℤ pos 2
          then (if e.bad_path == 0 then ok (tt, spent e) else stop path_killed)
          else stop assertion)
  unfolding verify_retval
  verify_retval_lem zero_ok = let no_annotation = is_zero e.g_symdrive_annotations in ground arith

module _ {T : Type 0} ⦃h : Hashtable T HValue⦄ ⦃k : Kernel⦄ (g_sym_starting_fn : List ℕ)
    (f : Framework T) (fn : List ℕ) where
  abbrev pub with_spent : Framework T
  with_spent = record f { enter_exit = spent f.enter_exit }

  -- and the driver is left
  abbrev pub returned : Framework T
  returned = with_running with_spent []

  -- what such a return does
  abbrev pub ExitChecked : ℕ → Bool → Type 0
  ExitChecked retval is_symbolic =
      exit_checks g_sym_starting_fn fn prepost_fn true retval is_symbolic (with_running f (fn ∷ []))
      ≡ (if same_string fn g_sym_starting_fn
          then stop path_killed
          else if f.enter_exit.g_symdrive_annotations ==ℤ pos 0 && k.is_err retval
          then stop path_killed
          else if f.enter_exit.g_sym_retval ==ℤ pos 0
          then on_global_state reset_new_objects returned
          else if f.enter_exit.g_sym_retval ==ℤ pos 1
          then stop path_killed
          else if f.enter_exit.g_sym_retval ==ℤ pos 2
          then (if f.enter_exit.bad_path == 0
              then on_global_state reset_new_objects returned
              else stop path_killed)
          else stop assertion)

  -- The result is read as it is.
  symbolic :
      (retval : ℕ) → f.global_lock_acquired ≡ 1 → k.is_err 0 ≡ false → ExitChecked retval true
  unfolding exit_checks handle_max_coverage
  symbolic retval held zero_ok =
      let named : left fn (fn ∷ []) ≡ some [] = rw (same_string_refl fn) refl in
      let last = ended f fn held exit prepost_fn (fn ∷ []) [] (omega arith) refl named in
      let result = verify_retval_lem (with_running f []).enter_exit refl retval zero_ok in
      ground arith

  -- There is no annotation.
  unannotated :
      (retval : ℕ)
      → f.global_lock_acquired ≡ 1
      → k.is_err 0 ≡ false
      → f.enter_exit.g_symdrive_annotations ==ℤ pos 0 ≡ true
      → ExitChecked retval false
  unfolding exit_checks handle_max_coverage annotated
  unannotated retval held zero_ok none_left =
      let named : left fn (fn ∷ []) ≡ some [] = rw (same_string_refl fn) refl in
      let last = ended f fn held exit prepost_fn (fn ∷ []) [] (omega arith) refl named in
      let result = verify_retval_lem (with_running f []).enter_exit refl retval zero_ok in
      ground arith

  -- Where an annotation is used up first.
  early :
      (retval : ℕ)
      → f.global_lock_acquired ≡ 1
      → k.is_err 0 ≡ false
      → f.enter_exit.g_symdrive_annotations ==ℤ pos 0 ≡ false
      → ExitChecked retval false
  unfolding exit_checks handle_max_coverage annotated
  early retval held zero_ok annotation =
      let named : left fn (fn ∷ []) ≡ some [] = rw (same_string_refl fn) refl in
      let last = ended with_spent fn held exit prepost_fn (fn ∷ []) [] (omega arith) refl named in
      let result = verify_retval_lem returned.enter_exit refl 0 zero_ok in ground arith

  -- The driver's outermost function returns to the kernel with a result, seen under the lock of the
  -- framework, where IS_ERR_VALUE does not hold of 0. The path ends if all paths of the function are
  -- explored, or if the result is an error and no annotation allows it. Else it goes on where the
  -- kernel's results are not symbolic. Where they are, it ends in mode 1, and in mode 2 it goes on
  -- only if it is no bad path, on which the driver was given a result that the kernel did not return.
  -- A path that goes on has an empty call stack, its annotation used up, and its new objects reset.
  pub outermost_exit :
      (retval : ℕ) (is_symbolic : Bool)
      → f.global_lock_acquired ≡ 1
      → k.is_err 0 ≡ false
      → ExitChecked retval is_symbolic
  outermost_exit retval true held zero_ok = symbolic retval held zero_ok
  outermost_exit retval false held zero_ok =
      elim (Bool-cases (f.enter_exit.g_symdrive_annotations ==ℤ pos 0)) [
        | inl none_left ↦ unannotated retval held zero_ok none_left
        | inr annotation ↦ early retval held zero_ok annotation
      ]
