-- ===== src/Checks/Timers.antt =====
-- The checks of the calls that start timers, gtf/misc_checks/main.c: each gives the delay that the
-- kernel's function is called with. A delay is a 32-bit word, and so is `slow`, which stands for
-- g_sym_slow_timers; `hz` is the kernel's HZ. A product of signed words wraps around.
use driver_optimizer.Prelude.{ℕ, ℤ, pos, ◌+◌, ◌*◌, ◌%◌, ◌==ℤ◌, if◌then◌else◌}
use driver_optimizer.Action.{Action, pure, halt, assertion}
use driver_optimizer.State.{ulong_max}
use driver_optimizer.Framework.{Framework, check_routine_with}

-- a 32-bit word
abbrev pub word : ℕ → ℕ
word n = n % (ulong_max + 1)

module _ {T : Type 0} where
  unfoldable pub schedule_delayed_work_check : ℕ → ℤ → ℕ → Action (Framework T) ℕ
  unfolding check_routine_with
  schedule_delayed_work_check slow prepost delay =
      check_routine_with (pure (if prepost ==ℤ pos 0 then word (delay * slow) else delay))

  unfoldable pub queue_delayed_work_check : ℕ → ℤ → ℕ → Action (Framework T) ℕ
  unfolding check_routine_with
  queue_delayed_work_check slow prepost delay =
      check_routine_with (pure (if prepost ==ℤ pos 0 then word (delay * slow) else delay))

  unfoldable pub schedule_timeout_check : ℕ → ℤ → ℕ → Action (Framework T) ℕ
  unfolding check_routine_with
  schedule_timeout_check slow prepost timeout =
      check_routine_with (pure (if prepost ==ℤ pos 0 then word (timeout * slow) else timeout))

  -- g_sym_slow_timers - 1 is the word `slow + ulong_max`
  unfoldable pub mod_timer_check : ℕ → ℕ → ℤ → ℕ → Action (Framework T) ℕ
  unfolding check_routine_with
  mod_timer_check slow hz prepost expires =
      check_routine_with
        (pure (if prepost ==ℤ pos 0 then word (expires + (slow + ulong_max) * hz) else expires))

  unfoldable pub schedule_timeout_uninterruptible_check : ℕ → ℤ → ℕ → Action (Framework T) ℕ
  unfolding check_routine_with
  schedule_timeout_uninterruptible_check slow prepost timeout = check_routine_with (
      if prepost ==ℤ pos 0
      then pure (word (timeout * slow))
      else if prepost ==ℤ pos 1
      then pure timeout
      else halt assertion)

  -- the value of (*timer)->expires
  unfoldable pub add_timer_check : ℕ → ℤ → ℕ → Action (Framework T) ℕ
  unfolding check_routine_with
  add_timer_check slow prepost expires = check_routine_with (
      if prepost ==ℤ pos 0
      then pure (word (expires * slow))
      else if prepost ==ℤ pos 1
      then pure expires
      else halt assertion)
