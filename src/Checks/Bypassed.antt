-- ===== src/Checks/Bypassed.antt =====
-- The checks of main.c that keep the kernel's function from running, or that check little: each gives
-- what it writes through `retval`, and what it returns, where 1 passes over the function.
use driver_optimizer.Prelude.{ℕ, ℤ, pos, ◌==ℤ◌, if◌then◌else◌}
use driver_optimizer.Action.{Action, pure, halt, assertion}
use driver_optimizer.State.{blocking_no}
use driver_optimizer.KernelState.{push_blocking_state, pop_blocking_state}
use driver_optimizer.Framework.{Framework, on_global_state, check_routine, check_routine_with}
use driver_optimizer.Checks.{sides}

module _ {T : Type 0} where
  unfoldable pub default_check : Action (Framework T) ℕ
  default_check = pure 0

  unfoldable pub copy_to_user_check : ℤ → Action (Framework T) (ℕ × ℕ)
  unfolding check_routine_with
  copy_to_user_check prepost =
      check_routine_with (if prepost ==ℤ pos 0 then pure (0, 1) else halt assertion)

  unfoldable pub probe_irq_mask_check : ℤ → ℕ → Action (Framework T) (ℕ × ℕ)
  unfolding check_routine_with
  probe_irq_mask_check prepost retval = check_routine_with (
      if prepost ==ℤ pos 0
      then pure (0, 1)
      else if prepost ==ℤ pos 1
      then pure (retval, 1)
      else halt assertion)

  unfoldable pub probe_irq_off_check : Action (Framework T) Unit
  unfolding check_routine
  probe_irq_off_check = check_routine (halt assertion)

  unfoldable pub request_firmware_check : ℤ → Action (Framework T) Unit
  unfolding check_routine
  request_firmware_check prepost = check_routine (sides prepost (pure tt) (pure tt))

  unfoldable pub release_firmware_check : ℤ → Action (Framework T) Unit
  unfolding check_routine
  release_firmware_check prepost = check_routine (sides prepost (pure tt) (pure tt))

  unfoldable pub netif_napi_add_poll_check : ℤ → Action (Framework T) Unit
  unfolding check_routine push_blocking_state pop_blocking_state
  netif_napi_add_poll_check prepost =
      check_routine
        (on_global_state (sides prepost (push_blocking_state blocking_no) pop_blocking_state))

  unfoldable pub napi_struct_poll_check : ℤ → Action (Framework T) Unit
  unfolding netif_napi_add_poll_check
  napi_struct_poll_check prepost = netif_napi_add_poll_check prepost
