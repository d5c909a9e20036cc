-- ===== src/Framework/Locked.antt =====
-- The lock of the framework around the checks, gtf/test_state.h and gtf/global_lock.c.
use driver_optimizer.Prelude.{Bool, ◌≡◌, ◌==◌, if◌then◌else◌, arith}
use driver_optimizer.Action.{pure, ◌>>◌, Action, ok, stop, assertion}
use driver_optimizer.State.{GlobalState}
use driver_optimizer.Framework.{Framework, on_global_state, check_routine}

module _ {T : Type 0} where
  -- A check routine that returns has found the lock of the framework free, and leaves it free,
  -- whatever its body does.
  pub check_routine-free :
      (body : Action (Framework T) Unit) (f t : Framework T)
      → check_routine body f ≡ ok (tt, t)
      → (f.global_lock_acquired ≡ 0) × (t.global_lock_acquired ≡ 0)
  unfolding check_routine
  check_routine-free body f t e = ground arith

  -- a routine whose body works on the global state
  pub check_routine-global :
      (m : Action (GlobalState T) Unit) (f : Framework T)
      → check_routine (on_global_state m) f
        ≡ (if f.global_lock_acquired == 0 then on_global_state m f else stop assertion)
  unfolding check_routine
  check_routine-global m f = ground arith

module _ {T : Type 0} (m n : Action (GlobalState T) Unit) (f : Framework T)
    (free : f.global_lock_acquired ≡ 0) where
  -- Two routines in turn, the first of which is a test of the state.
  pub test-then :
      (b : Bool)
      → m f.global_state ≡ (if b then ok (tt, f.global_state) else stop assertion)
      → (check_routine (on_global_state m) >> check_routine (on_global_state n)) f
        ≡ (if b then on_global_state n f else stop assertion)
  unfolding check_routine
  test-then b e = ground arith

module _ {T : Type 0} (m : Action (GlobalState T) Unit) (f : Framework T)
    (free : f.global_lock_acquired ≡ 0) where
  -- Two routines in turn, the second of which does nothing.
  pub then-nothing :
      (check_routine (on_global_state m) >> check_routine (on_global_state (pure tt))) f
      ≡ on_global_state m f
  unfolding check_routine
  then-nothing = ground arith
