-- ===== src/Structs/UsbDriver.antt =====
-- The checks of the functions in a struct usb_driver, gtf/structs/usb_driver.c.
use driver_optimizer.Prelude.{ℤ, pos, ◌==ℤ◌, if◌then◌else◌}
use driver_optimizer.Action.{Action, pure, get, tfassert, ◌>>=◌, ◌>>◌}
use driver_optimizer.State.{
  blocking_yes, user_yes, user_no, Drivers, not_called, in_progress, called_ok, called_failed,
  call_is, class_is, driver_net,
}
use driver_optimizer.KernelState.{push_kernel_state, pop_kernel_state}
use driver_optimizer.DriverState.{set_call_state, get_driver_class}
use driver_optimizer.Framework.{Framework, on_drivers, on_global_state, check_routine}
use driver_optimizer.Checks.{sides}
use driver_optimizer.Checks.Fields.{on_usb_probed}
use driver_optimizer.Pci.{not_done}
use driver_optimizer.Structs.{entry_point, unchecked}

-- what a network driver must have registered when its probe returns
abbrev pub usb_probe_registers : ℤ → Action Drivers Unit
usb_probe_registers retval = do
  on_usb_probed (set_call_state (if retval ==ℤ pos 0 then called_ok else called_failed))
  class ← get_driver_class
  d ← get
  if class_is class driver_net
      then tfassert (
          if retval ==ℤ pos 0
          then call_is d.ndo_driver_state.register_netdev called_ok
          else not_done d.ndo_driver_state.register_netdev)
      else pure tt

module _ {T : Type 0} where
  unfoldable pub usb_driver_probe : ℤ → ℤ → Action (Framework T) Unit
  unfolding check_routine push_kernel_state pop_kernel_state set_call_state get_driver_class
  usb_driver_probe prepost retval = check_routine (
      sides prepost
        (do
          f ← get
          tfassert (call_is f.drivers.usb_driver_state.probed not_called)
          on_drivers (on_usb_probed (set_call_state in_progress))
          on_global_state (push_kernel_state blocking_yes user_no))
        (do on_drivers (usb_probe_registers retval); on_global_state pop_kernel_state))

  unfoldable pub usb_driver_disconnect : ℤ → Action (Framework T) Unit
  usb_driver_disconnect = entry_point blocking_yes user_no

  unfoldable pub usb_driver_unlocked_ioctl : ℤ → Action (Framework T) Unit
  usb_driver_unlocked_ioctl = entry_point blocking_yes user_yes

  unfoldable pub usb_driver_suspend : Action (Framework T) Unit
  unfolding unchecked
  usb_driver_suspend = unchecked

  unfoldable pub usb_driver_resume : ℤ → Action (Framework T) Unit
  usb_driver_resume = entry_point blocking_yes user_no

  unfoldable pub usb_driver_reset_resume : ℤ → Action (Framework T) Unit
  usb_driver_reset_resume = entry_point blocking_yes user_no

  unfoldable pub usb_driver_pre_reset : ℤ → Action (Framework T) Unit
  usb_driver_pre_reset = entry_point blocking_yes user_no

  unfoldable pub usb_driver_post_reset : ℤ → Action (Framework T) Unit
  usb_driver_post_reset = entry_point blocking_yes user_no
