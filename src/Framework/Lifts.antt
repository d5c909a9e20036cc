-- ===== src/Framework/Lifts.antt =====
-- Runs of check routines whose bodies work on the global state, with the lock of the framework around
-- each of them (gtf/test_state.h).
use driver_optimizer.Prelude.{◌≡◌, refl}
use driver_optimizer.Action.{Action, Result, ok, stop, pure, ◌>>◌, continue, rejoin}
use driver_optimizer.State.{GlobalState}
use driver_optimizer.Framework.{Framework, on_global_state, check_routine}
use driver_optimizer.Framework.Locked.{check_routine-global}

module _ {T : Type 0} where
  -- Where the lock of the framework is free, `whole` does on the framework what `part` does on its
  -- global state.
  abbrev pub Lifts : Action (Framework T) Unit → Action (GlobalState T) Unit → Type 0
  Lifts whole part =
      (f : Framework T) → f.global_lock_acquired ≡ 0 → whole f ≡ on_global_state part f

  pub check_routine-Lifts :
      (m : Action (GlobalState T) Unit) → Lifts (check_routine (on_global_state m)) m
  check_routine-Lifts m f free = rw (check_routine-global m f, free) refl

  pub pure-Lifts : Lifts (pure tt) (pure tt)
  pure-Lifts f free = refl

  pub then-Lifts :
      (whole whole' : Action (Framework T) Unit) (part part' : Action (GlobalState T) Unit)
      → Lifts whole part
      → Lifts whole' part'
      → Lifts (whole >> whole') (part >> part')
  then-Lifts whole whole' part part' first second f free =
      rw (first f free) (rest (part f.global_state))
    where
      rest :
          (r : Result {0} (Unit {0} × GlobalState T))
          → continue (rejoin (λ g f'. record f' { global_state = g }) f r) (λ _. whole')
            ≡ rejoin (λ g f'. record f' { global_state = g }) f (continue r (λ _. part'))
      rest (ok (u, g)) = second (record f { global_state = g }) free
      rest (stop e) = refl

  -- a part that returns
  pub Lifts-ok :
      (whole : Action (Framework T) Unit) (part : Action (GlobalState T) Unit) (f : Framework T)
      (g : GlobalState T)
      → Lifts whole part
      → f.global_lock_acquired ≡ 0
      → part f.global_state ≡ ok (tt, g)
      → whole f ≡ ok (tt, record f { global_state = g })
  Lifts-ok whole part f g lifts free ran = rw (lifts f free, ran) refl
