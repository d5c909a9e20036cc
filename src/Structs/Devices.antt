-- ===== src/Structs/Devices.antt =====
-- The checks of the functions in a struct i2c_driver, a struct platform_driver, a struct spi_driver
-- and a struct proto_ops, and of a timer's function, in the files of gtf/structs/ of these names.
use driver_optimizer.Prelude.{ℕ, ℤ, pos, not, ◌==◌, ◌==ℤ◌, if◌then◌else◌}
use driver_optimizer.Action.{Action, pure, tfassert, ◌>>◌}
use driver_optimizer.State.{Kernel, CallState, in_progress, called_ok, called_failed}
use driver_optimizer.DriverState.{set_call_state}
use driver_optimizer.EntryPoints.{ep_init_i2c_client}
use driver_optimizer.Capable.{ioctl_called_capable}
use driver_optimizer.Framework.{Framework, on_drivers, on_ep_state, on_capable_state, check_routine}
use driver_optimizer.Checks.{sides}
use driver_optimizer.Checks.Fields.{on_i2c_probed, on_platform_probed, on_spi_probed}
use driver_optimizer.Structs.{unchecked}

-- how a probe ends
abbrev pub probe_ended : ℤ → Action CallState Unit
probe_ended retval = set_call_state (if retval ==ℤ pos 0 then called_ok else called_failed)

module _ {T : Type 0} where
  unfoldable pub i2c_driver_probe : ℤ → ℤ → ℕ → Action (Framework T) Unit
  unfolding check_routine set_call_state ep_init_i2c_client
  i2c_driver_probe prepost retval client = check_routine (
      sides prepost
        (do
          on_ep_state (ep_init_i2c_client client)
          on_drivers (on_i2c_probed (set_call_state in_progress)))
        (on_drivers (on_i2c_probed (probe_ended retval))))

  unfoldable pub platform_driver_probe : ℤ → ℤ → Action (Framework T) Unit
  unfolding check_routine set_call_state
  platform_driver_probe prepost retval = check_routine (
      on_drivers (
        sides prepost (on_platform_probed (set_call_state in_progress))
          (on_platform_probed (probe_ended retval))))

  unfoldable pub spi_driver_probe : ℤ → ℤ → Action (Framework T) Unit
  unfolding check_routine set_call_state
  spi_driver_probe prepost retval = check_routine (
      on_drivers (
        sides prepost (on_spi_probed (set_call_state in_progress))
          (on_spi_probed (probe_ended retval))))

  -- `retval_at` and `cmd_at` are the addresses of the two arguments
  unfoldable pub proto_ops_ioctl : Kernel → ℤ → ℕ → ℤ → ℕ → ℤ → Action (Framework T) Unit
  unfolding check_routine ioctl_called_capable
  proto_ops_ioctl k prepost retval_at retval cmd_at cmd = check_routine (
      sides prepost (pure tt) (do
        tfassert (not (retval_at == 0))
        tfassert (not (cmd_at == 0))
        on_capable_state (ioctl_called_capable k prepost retval cmd)))

  unfoldable pub i2c_driver_attach_adapter : Action (Framework T) Unit
  unfolding unchecked
  i2c_driver_attach_adapter = unchecked

  unfoldable pub i2c_driver_detach_adapter : Action (Framework T) Unit
  unfolding unchecked
  i2c_driver_detach_adapter = unchecked

  unfoldable pub i2c_driver_remove : Action (Framework T) Unit
  unfolding unchecked
  i2c_driver_remove = unchecked

  unfoldable pub i2c_driver_shutdown : Action (Framework T) Unit
  unfolding unchecked
  i2c_driver_shutdown = unchecked

  unfoldable pub i2c_driver_suspend : Action (Framework T) Unit
  unfolding unchecked
  i2c_driver_suspend = unchecked

  unfoldable pub i2c_driver_resume : Action (Framework T) Unit
  unfolding unchecked
  i2c_driver_resume = unchecked

  unfoldable pub i2c_driver_alert : Action (Framework T) Unit
  unfolding unchecked
  i2c_driver_alert = unchecked

  unfoldable pub i2c_driver_command : Action (Framework T) Unit
  unfolding unchecked
  i2c_driver_command = unchecked

  unfoldable pub platform_driver_remove : Action (Framework T) Unit
  unfolding unchecked
  platform_driver_remove = unchecked

  unfoldable pub platform_driver_shutdown : Action (Framework T) Unit
  unfolding unchecked
  platform_driver_shutdown = unchecked

  unfoldable pub platform_driver_suspend : Action (Framework T) Unit
  unfolding unchecked
  platform_driver_suspend = unchecked

  unfoldable pub platform_driver_resume : Action (Framework T) Unit
  unfolding unchecked
  platform_driver_resume = unchecked

  unfoldable pub spi_driver_remove : Action (Framework T) Unit
  unfolding unchecked
  spi_driver_remove = unchecked

  unfoldable pub spi_driver_shutdown : Action (Framework T) Unit
  unfolding unchecked
  spi_driver_shutdown = unchecked

  unfoldable pub spi_driver_suspend : Action (Framework T) Unit
  unfolding unchecked
  spi_driver_suspend = unchecked

  unfoldable pub spi_driver_resume : Action (Framework T) Unit
  unfolding unchecked
  spi_driver_resume = unchecked

  unfoldable pub timer_list_function : Action (Framework T) Unit
  unfolding unchecked
  timer_list_function = unchecked
