-- ===== src/State/Objects.antt =====
-- The object tracker's entries and the global state of gtf/test_state.c.
use driver_optimizer.Prelude.{ℕ, List}
use driver_optimizer.State.Enums.{BlockingContext, UserContext}

-- struct hvalue. `origin_str` holds the bytes up to the terminating 0; a `char` of `lock_state`
-- is kept as a byte, 255 for -1. struct hkey is its one field, a number.
pub record HValue : Type 0 where
  pub origin_str : List ℕ
  pub origin : ℕ
  pub size : ℕ
  pub new_object : ℕ
  pub lock_state : List ℕ

-- #define MAX_NESTING 16
abbrev pub max_nesting : ℕ
max_nesting = 16

-- struct global_state_struct. The two indices start at 0 and are decremented only after a test
-- that they are positive, so they are numbers. `T` is the type of hash tables.
pub record GlobalState (T : Type 0) : Type 0 where
  pub blocking_context : List BlockingContext
  pub blocking_context_current : ℕ
  pub user_context : List UserContext
  pub user_context_current : ℕ
  pub device_irq_disabled : ℕ
  pub objs : T
  pub objs_dirty : ℕ

-- (unsigned long) -1 on the 32-bit kernels that the framework runs in
abbrev pub ulong_max : ℕ
ulong_max = 4294967295
