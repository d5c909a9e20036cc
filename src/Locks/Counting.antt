-- ===== src/Locks/Counting.antt =====
-- verify_lock_state of gtf/test_state.c: its loop over the states of a lock.
use driver_optimizer.Prelude.{ℕ, ◌+◌, ◌≡◌, ◌&&◌, List, [], ◌∷◌, arith, leb, if◌then◌else◌}
use driver_optimizer.Action.{ok, stop, assertion}
use driver_optimizer.State.{HValue}
use driver_optimizer.Locks.{locked, are_flags, verify_from, verify_lock_state}

module _ {S : Type 0} where
  -- The loop adds up the states that are 1, and stops at the first that is neither 0 nor 1.
  verify_from_lem :
      (states : List ℕ) (found : ℕ) (s : S)
      → verify_from states found s
        ≡ (if are_flags states then ok (found + locked states, s) else stop assertion)
  unfolding verify_from
  verify_from_lem [] found s = ground arith
  verify_from_lem (state ∷ states) found s =
      ground (arith, verify_from_lem states found s, verify_from_lem states (found + 1) s)

  -- A lock's entry is accepted exactly when each of its states is 0 or 1 and at most one is 1;
  -- any other entry ends the path by an assertion, and nothing is changed.
  pub verify_lock_state_lem :
      (value : HValue) (s : S)
      → verify_lock_state value s ≡ (
          if are_flags value.lock_state && leb (locked value.lock_state) 1
          then ok (tt, s)
          else stop assertion)
  unfolding verify_lock_state
  verify_lock_state_lem value s = ground (arith, verify_from_lem value.lock_state 0 s)
