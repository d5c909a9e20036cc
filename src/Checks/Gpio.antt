-- ===== src/Checks/Gpio.antt =====
-- The emulated pins, gtf/misc_checks/gpio.c: the kernel's functions are passed over, since each check
-- returns 1. Each gives the value that it leaves in `*retval`; `chosen` is what S2E makes of it. A
-- result is a 32-bit word, with a negative one as IS_ERR_VALUE reads it.
use driver_optimizer.Prelude.{ℕ, ℤ, pos, not, Bool, ◌+◌, ◌-◌, ◌==◌, ◌&&◌, ◌==ℤ◌, if◌then◌else◌}
use driver_optimizer.Action.{Action, pure, halt, assertion}
use driver_optimizer.State.{Kernel, ulong_max}
use driver_optimizer.Framework.{Framework, check_routine, check_routine_with}

-- -error, for a constant of the kernel
abbrev pub minus : ℕ → ℕ
minus error = ulong_max + 1 - error

-- IS_ERR_VALUE (*retval) && *retval != -ENXIO && *retval != -ENODEV, or 0
abbrev pub plausible_error : Kernel → ℕ → ℕ
plausible_error k chosen =
    if k.is_err chosen && not (chosen == minus k.enxio) && not (chosen == minus k.enodev)
    then chosen
    else 0

module _ {T : Type 0} where
  -- a check that leaves `value`, before the call, and is not expected after it
  abbrev pub bypassed : {A : Type 0} → A → ℤ → Action (Framework T) A
  bypassed value prepost =
      check_routine_with (if prepost ==ℤ pos 0 then pure value else halt assertion)

  unfoldable pub gpio_is_valid_check : Bool → ℤ → Action (Framework T) Bool
  unfolding check_routine_with
  gpio_is_valid_check chosen = bypassed chosen

  unfoldable pub gpio_request_check : Kernel → ℕ → ℤ → Action (Framework T) ℕ
  unfolding check_routine_with
  gpio_request_check k chosen = bypassed (plausible_error k chosen)

  unfoldable pub gpio_request_one_check : Kernel → ℕ → ℤ → Action (Framework T) ℕ
  unfolding check_routine_with
  gpio_request_one_check k chosen = bypassed (plausible_error k chosen)

  unfoldable pub gpio_request_array_check : Kernel → ℕ → ℤ → Action (Framework T) ℕ
  unfolding check_routine_with
  gpio_request_array_check k chosen = bypassed (plausible_error k chosen)

  unfoldable pub gpio_direction_input_check : Kernel → ℕ → ℤ → Action (Framework T) ℕ
  unfolding check_routine_with
  gpio_direction_input_check k chosen = bypassed (plausible_error k chosen)

  unfoldable pub gpio_direction_output_check : Kernel → ℕ → ℤ → Action (Framework T) ℕ
  unfolding check_routine_with
  gpio_direction_output_check k chosen = bypassed (plausible_error k chosen)

  unfoldable pub gpio_set_debounce_check : Kernel → ℕ → ℤ → Action (Framework T) ℕ
  unfolding check_routine_with
  gpio_set_debounce_check k chosen = bypassed (plausible_error k chosen)

  unfoldable pub gpio_get_value_wrapper : ℕ → ℤ → Action (Framework T) ℕ
  unfolding check_routine_with
  gpio_get_value_wrapper chosen = bypassed chosen

  unfoldable pub gpio_get_value_cansleep_check : ℕ → ℤ → Action (Framework T) ℕ
  unfolding check_routine_with
  gpio_get_value_cansleep_check chosen = bypassed chosen

  unfoldable pub gpio_export_check : ℕ → ℤ → Action (Framework T) ℕ
  unfolding check_routine_with
  gpio_export_check chosen = bypassed chosen

  unfoldable pub gpio_export_link_check : ℕ → ℤ → Action (Framework T) ℕ
  unfolding check_routine_with
  gpio_export_link_check chosen = bypassed chosen

  unfoldable pub gpio_sysfs_set_active_low_check : ℕ → ℤ → Action (Framework T) ℕ
  unfolding check_routine_with
  gpio_sysfs_set_active_low_check chosen = bypassed chosen

  -- gpio_get_value and __gpio_get_value
  unfoldable pub gpio_get_value_check : ℕ → ℤ → Action (Framework T) ℕ
  unfolding gpio_get_value_wrapper
  gpio_get_value_check chosen = gpio_get_value_wrapper chosen

  unfoldable pub gpio_cansleep_check : ℕ → ℤ → Action (Framework T) ℕ
  unfolding check_routine_with
  gpio_cansleep_check chosen = bypassed (if chosen == 0 then 0 else 1)

  unfoldable pub gpio_to_irq_check : Kernel → ℤ → Action (Framework T) ℕ
  unfolding check_routine_with
  gpio_to_irq_check k = bypassed (minus k.enxio)

  unfoldable pub irq_to_gpio_check : Kernel → ℤ → Action (Framework T) ℕ
  unfolding check_routine_with
  irq_to_gpio_check k = bypassed (minus k.einval)

  unfoldable pub gpio_free_check : Action (Framework T) Unit
  unfolding check_routine
  gpio_free_check = check_routine (pure tt)

  unfoldable pub gpio_free_array_check : Action (Framework T) Unit
  unfolding check_routine
  gpio_free_array_check = check_routine (pure tt)

  unfoldable pub gpio_set_value_check : Action (Framework T) Unit
  unfolding check_routine
  gpio_set_value_check = check_routine (pure tt)

  unfoldable pub gpio_set_value_cansleep_check : Action (Framework T) Unit
  unfolding check_routine
  gpio_set_value_cansleep_check = check_routine (pure tt)

  unfoldable pub gpio_unexport_check : Action (Framework T) Unit
  unfolding check_routine
  gpio_unexport_check = check_routine (pure tt)
