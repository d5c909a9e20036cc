-- ===== src/Tests/PciDriver.antt =====
-- A PCI driver on concrete inputs.
use driver_optimizer.Prelude.{arith, negsuc, ◌≡◌, refl, pos}
use driver_optimizer.Action.{assertion, stop, ok, ◌>>◌}
use driver_optimizer.EntryPoints.{started_arrays}
use driver_optimizer.Pci.{pci_register_driver, pci_unregister_driver, pci_driver_probe}
use driver_optimizer.Pci.Registration.{unregister-register}
use driver_optimizer.Pci.Probe.{probe-agrees}
use driver_optimizer.Checks.Network.{register_netdev_check}
use driver_optimizer.Tests.{start-IsNested}
use driver_optimizer.Hashtable.Assoc.{assoc}
use driver_optimizer.Tests.{loaded}

unregister-register_example :
    (pci_register_driver (pos 0) (pos 0) 4096
        >> pci_register_driver (pos 1) (pos 0) 4096
        >> pci_unregister_driver (pos 0)
        >> pci_unregister_driver (pos 1))
      loaded
    ≡ ok (tt, record loaded { ep_state = record started_arrays { pci_drv = 4096 } })
unregister-register_example = unregister-register loaded 4096 (pos 0) refl refl refl refl

probe-agrees_example :
    (pci_driver_probe (pos 0) (pos 0) 8192 1 11
        >> ((register_netdev_check (pos 0) (pos 0) 4096
              >> register_netdev_check (pos 1) (pos 0) 4096)
            >> pci_driver_probe (pos 1) (negsuc 11) 8192 1 11))
      loaded
    ≡ stop assertion
probe-agrees_example =
    probe-agrees loaded (pos 0) (pos 0) (negsuc 11) (pos 0) 4096 8192 1 11 refl refl refl refl refl
      refl refl start-IsNested (omega arith) (omega arith)
