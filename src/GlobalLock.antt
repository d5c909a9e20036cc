-- ===== src/GlobalLock.antt =====
-- The lock of the framework itself, gtf/global_lock.c. The state is `global_lock_acquired`. The
-- kernel's spinlock under it has no state of the framework: it makes the calls follow one another.
use driver_optimizer.Prelude.{ℕ, ◌==◌}
use driver_optimizer.Action.{Action, ◌>>=◌, ◌>>◌, get, put, tfassert}

unfoldable pub acquire_global_lock : Action ℕ Unit
acquire_global_lock = do global_lock_acquired ← get; tfassert (global_lock_acquired == 0); put 1

unfoldable pub release_global_lock : Action ℕ Unit
release_global_lock = do global_lock_acquired ← get; tfassert (global_lock_acquired == 1); put 0

unfoldable pub assert_global_lock : Action ℕ Unit
assert_global_lock = do global_lock_acquired ← get; tfassert (global_lock_acquired == 1)
