-- ===== src/Pci/Registration.antt =====
-- A PCI driver that is registered and unregistered, gtf/misc_checks/pci.c.
use driver_optimizer.Prelude.{ℕ, ◌≡◌, ℤ, pos, arith}
use driver_optimizer.Action.{ok, ◌>>◌}
use driver_optimizer.State.{not_called}
use driver_optimizer.Framework.{Framework}
use driver_optimizer.Pci.{pci_register_driver, pci_unregister_driver}

module _ {T : Type 0} where
  -- A PCI driver that is registered with success and then unregistered, each seen before and after
  -- the call, leaves the framework as it was, but for the pointer to the driver that the tests of
  -- entry points use: where no registration is on record, the bus is not in use and the lock of the
  -- framework is free.
  pub unregister-register :
      (f : Framework T) (driver : ℕ) (before : ℤ)
      → f.global_lock_acquired ≡ 0
      → f.drivers.pci_driver_state.registered ≡ not_called
      → f.drivers.pci_driver_state.unregistered ≡ not_called
      → f.drivers.pci_driver_state.pci ≡ 0
      → (pci_register_driver (pos 0) before driver
            >> pci_register_driver (pos 1) (pos 0) driver
            >> pci_unregister_driver (pos 0)
            >> pci_unregister_driver (pos 1))
          f
        ≡ ok (tt, record f { ep_state = record f.ep_state { pci_drv = driver } })
  unfolding pci_register_driver pci_unregister_driver
  unregister-register f driver before free fresh none_left unused = ground arith
