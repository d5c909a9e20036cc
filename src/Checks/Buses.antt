-- ===== src/Checks/Buses.antt =====
-- The checks of the calls that register a driver with its bus, gtf/misc_checks/main.c, i2c.c,
-- platform.c and spi.c, and of the two functions of a module, in main.c.
use driver_optimizer.Prelude.{ℕ, ℤ, pos, not, Bool, ◌||◌, ◌==◌, ◌==ℤ◌, if◌then◌else◌, bit_and}
use driver_optimizer.Action.{Action, pure, get, tfassert, ◌>>=◌, ◌>>◌}
use driver_optimizer.State.{
  CallState, not_called, in_progress, called_ok, called_failed, call_is, Drivers, BusType,
  driver_usb, driver_misc, driver_proto_ops, driver_i2c, driver_platform, driver_spi, bus_bit,
  blocking_yes, user_yes, user_no,
}
use driver_optimizer.KernelState.{
  push_blocking_state, push_user_state, pop_blocking_state, pop_user_state,
}
use driver_optimizer.DriverState.{set_call_state, set_driver_bus, remove_driver_bus, get_driver_bus}
use driver_optimizer.EntryPoints.{ep_init_i2c_driver}
use driver_optimizer.Framework.{Framework, on_drivers, on_global_state, on_ep_state, check_routine}
use driver_optimizer.Checks.{sides}
use driver_optimizer.Checks.Fields.{
  on_usb_registered, on_misc_registered, on_proto_registered, on_proto_unregistered,
  on_i2c_registered, on_platform_registered, on_spi_registered,
}

-- tfassert (get_driver_bus (fn) & type)
abbrev pub bus_in_use : BusType → Action Drivers Unit
bus_in_use type = do d ← get; tfassert (not (bit_and (get_driver_bus d) (bus_bit type) == 0))

-- how a registration ends
abbrev pub ended : ℤ → CallState
ended retval = if retval ==ℤ pos 0 then called_ok else called_failed

-- one of the seven registrations is CALLED_OK
abbrev pub any_registered : Drivers → Bool
any_registered d =
    call_is d.pci_driver_state.registered called_ok
    || call_is d.usb_driver_state.registered called_ok
    || call_is d.misc_driver_state.registered called_ok
    || call_is d.proto_ops_state.registered called_ok
    || call_is d.i2c_driver_state.registered called_ok
    || call_is d.platform_driver_state.registered called_ok
    || call_is d.spi_driver_state.registered called_ok

module _ {T : Type 0} where
  unfoldable pub init_module_check : ℤ → ℤ → Action (Framework T) Unit
  unfolding check_routine push_blocking_state push_user_state pop_blocking_state pop_user_state
  init_module_check prepost retval = check_routine (
      sides prepost
        (on_global_state (do push_blocking_state blocking_yes; push_user_state user_yes))
        (do
          on_global_state pop_blocking_state
          on_global_state pop_user_state
          f ← get
          tfassert (
              if retval ==ℤ pos 0
              then any_registered f.drivers
              else not (any_registered f.drivers))))

  unfoldable pub cleanup_module_check : ℤ → Action (Framework T) Unit
  unfolding check_routine push_blocking_state push_user_state pop_blocking_state pop_user_state
  cleanup_module_check prepost = check_routine (
      on_global_state (
        sides prepost (do push_blocking_state blocking_yes; push_user_state user_no)
          (do pop_blocking_state; pop_user_state)))

  unfoldable pub usb_register_driver_check : ℤ → ℤ → Action (Framework T) Unit
  unfolding check_routine set_call_state set_driver_bus
  usb_register_driver_check prepost retval = check_routine (
      on_drivers (
        sides prepost
          (do
            d ← get
            tfassert (call_is d.usb_driver_state.registered not_called)
            on_usb_registered (set_call_state in_progress)
            set_driver_bus driver_usb)
          (on_usb_registered (set_call_state (ended retval)))))

  unfoldable pub usb_deregister_check : ℤ → Action (Framework T) Unit
  unfolding check_routine set_call_state remove_driver_bus get_driver_bus
  usb_deregister_check prepost = check_routine (
      on_drivers (
        sides prepost
          (do
            bus_in_use driver_usb
            d ← get
            tfassert (call_is d.usb_driver_state.registered called_ok)
            on_usb_registered (set_call_state in_progress))
          (do on_usb_registered (set_call_state not_called); remove_driver_bus driver_usb)))

  unfoldable pub misc_register_check : ℤ → ℤ → Action (Framework T) Unit
  unfolding check_routine set_call_state set_driver_bus
  misc_register_check prepost retval = check_routine (
      on_drivers (
        sides prepost
          (do
            d ← get
            tfassert (call_is d.misc_driver_state.registered not_called)
            on_misc_registered (set_call_state in_progress)
            set_driver_bus driver_misc)
          (on_misc_registered (set_call_state (ended retval)))))

  unfoldable pub misc_deregister_check : ℤ → ℤ → Action (Framework T) Unit
  unfolding check_routine set_call_state remove_driver_bus get_driver_bus
  misc_deregister_check prepost retval = check_routine (
      on_drivers (
        sides prepost
          (do
            bus_in_use driver_misc
            d ← get
            tfassert (call_is d.misc_driver_state.registered called_ok)
            on_misc_registered (set_call_state in_progress))
          (if retval ==ℤ pos 0
            then (do on_misc_registered (set_call_state not_called); remove_driver_bus driver_misc)
            else pure tt)))

  unfoldable pub proto_register_check : ℤ → ℤ → Action (Framework T) Unit
  unfolding check_routine set_call_state set_driver_bus
  proto_register_check prepost retval = check_routine (
      on_drivers (
        sides prepost
          (do
            d ← get
            tfassert (call_is d.proto_ops_state.registered not_called)
            on_proto_registered (set_call_state in_progress)
            set_driver_bus driver_proto_ops)
          (on_proto_registered (set_call_state (ended retval)))))

  unfoldable pub proto_unregister_check : ℤ → Action (Framework T) Unit
  unfolding check_routine set_call_state remove_driver_bus
  proto_unregister_check prepost = check_routine (
      on_drivers (
        sides prepost
          (do
            d ← get
            tfassert (call_is d.proto_ops_state.registered called_ok)
            on_proto_unregistered (set_call_state in_progress))
          (do
            on_proto_registered (set_call_state not_called)
            on_proto_unregistered (set_call_state not_called)
            remove_driver_bus driver_proto_ops)))

  -- `driver` is the pointer that the entry point tests keep
  unfoldable pub i2c_add_driver_check : ℤ → ℤ → ℕ → Action (Framework T) Unit
  unfolding check_routine set_call_state set_driver_bus ep_init_i2c_driver
  i2c_add_driver_check prepost retval driver = check_routine (
      sides prepost (on_drivers (on_i2c_registered (set_call_state in_progress))) (
        if retval ==ℤ pos 0
        then (do
          on_drivers (on_i2c_registered (set_call_state called_ok))
          on_drivers (set_driver_bus driver_i2c)
          on_ep_state (ep_init_i2c_driver driver))
        else on_drivers (on_i2c_registered (set_call_state called_failed))))

  unfoldable pub i2c_del_driver_check : ℤ → Action (Framework T) Unit
  unfolding check_routine remove_driver_bus
  i2c_del_driver_check prepost =
      check_routine (on_drivers (sides prepost (pure tt) (remove_driver_bus driver_i2c)))

  unfoldable pub platform_driver_register_check : ℤ → ℤ → Action (Framework T) Unit
  unfolding check_routine set_call_state set_driver_bus
  platform_driver_register_check prepost retval = check_routine (
      on_drivers (
        sides prepost (on_platform_registered (set_call_state in_progress)) (
          if retval ==ℤ pos 0
          then (do
            on_platform_registered (set_call_state called_ok)
            set_driver_bus driver_platform)
          else on_platform_registered (set_call_state called_failed))))

  unfoldable pub platform_driver_unregister_check : ℤ → Action (Framework T) Unit
  unfolding check_routine remove_driver_bus
  platform_driver_unregister_check prepost =
      check_routine (on_drivers (sides prepost (pure tt) (remove_driver_bus driver_platform)))

  unfoldable pub spi_register_driver_check : ℤ → ℤ → Action (Framework T) Unit
  unfolding check_routine set_call_state set_driver_bus
  spi_register_driver_check prepost retval = check_routine (
      on_drivers (
        sides prepost (on_spi_registered (set_call_state in_progress)) (
          if retval ==ℤ pos 0
          then (do on_spi_registered (set_call_state called_ok); set_driver_bus driver_spi)
          else on_spi_registered (set_call_state called_failed))))

  unfoldable pub spi_unregister_driver_check : ℤ → Action (Framework T) Unit
  unfolding check_routine remove_driver_bus
  spi_unregister_driver_check prepost =
      check_routine (on_drivers (sides prepost (pure tt) (remove_driver_bus driver_spi)))
