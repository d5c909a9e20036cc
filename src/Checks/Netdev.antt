-- ===== src/Checks/Netdev.antt =====
-- A network device that is registered, unregistered and registered again, gtf/misc_checks/main.c.
use driver_optimizer.Prelude.{ℕ, ◌≡◌, ℤ, pos, arith}
use driver_optimizer.Action.{stop, assertion, ◌>>◌}
use driver_optimizer.State.{not_called, device_state_enabled}
use driver_optimizer.Framework.{Framework}
use driver_optimizer.Checks.Network.{register_netdev_check, unregister_netdev_check}

module _ {T : Type 0} where
  -- A network device that is unregistered cannot be registered again: where a driver that has taken no
  -- class yet, and whose PCI device is enabled, registers a device and unregisters it, both with
  -- success, the check before its next register_netdev ends the path by an assertion, since the class
  -- that the first one set is still there.
  pub register-unregister-register :
      (f : Framework T) (retval before : ℤ) (dev again : ℕ)
      → f.global_lock_acquired ≡ 0
      → f.drivers.ndo_driver_state.register_netdev ≡ not_called
      → f.drivers.ndo_driver_state.unregister_netdev ≡ not_called
      → f.drivers.ndo_driver_state.net ≡ 0
      → f.drivers.sound_driver_state.sound ≡ 0
      → f.drivers.pci_driver_state.enabled ≡ device_state_enabled
      → (register_netdev_check (pos 0) before dev
            >> register_netdev_check (pos 1) (pos 0) dev
            >> unregister_netdev_check (pos 0)
            >> unregister_netdev_check (pos 1)
            >> register_netdev_check (pos 0) retval again)
          f
        ≡ stop assertion
  unfolding register_netdev_check unregister_netdev_check
  register-unregister-register f retval before dev again free fresh fresh' net sound enabled =
      ground arith
