-- ===== src/Emulation/PciDevice.antt =====
-- The PCI device under the emulated ones, gtf/bus_generic_pci.c. The loop over the device's resources
-- is left out: it prints, and compares a field with itself, since pci_resource_start reads it.
use driver_optimizer.Prelude.{ℕ, ℤ, pos, ◌∷◌, ◌==◌, ◌==ℤ◌, if◌then◌else◌}
use driver_optimizer.Action.{Action, pure, get, modify, halt, kernel_panic, ◌>>=◌, ◌>>◌}
use driver_optimizer.Emulation.{
  Emulation, Answers, PciCore, call, pci_enable_device, pci_disable_device, kzalloc, kfree,
}

module _ (answers : Answers) where
  unfoldable pub pci_platform_probe : ℕ → Action Emulation ℤ
  pci_platform_probe pdev = do
    e ← get
    let private = answers.kzalloc_result e.calls
    call (kzalloc private)
    if private == 0 then halt kernel_panic else do
      if e.pci_cur_device == 0 then pure tt else halt kernel_panic
      modify (λ s. record s { pci_cur_device = pdev })
      let rc = answers.enable_result (kzalloc private ∷ e.calls) pdev
      call (pci_enable_device pdev)
      if rc ==ℤ pos 0 then pure tt else halt kernel_panic
      modify (λ s. record s { drvdata = private })
      pure (pos 0)

  unfoldable pub pci_platform_remove_one : ℕ → Action Emulation Unit
  pci_platform_remove_one pdev = do
    e ← get
    let private = e.drvdata
    if e.pci_cur_device == 0 then halt kernel_panic else do
      if private == 0 then pure tt else (do
        call (pci_disable_device pdev)
        call (kfree private)
        modify (λ s. record s { drvdata = 0 }))
      modify (λ s. record s { pci_cur_device = 0 })

  module _ (core : PciCore) where
    unfoldable pub initialize_pci_device : Action Emulation ℕ
    initialize_pci_device = do
      ret ← core.register_driver pci_platform_probe
      if ret ==ℤ pos 0 then pure tt else halt kernel_panic
      e ← get
      if e.pci_cur_device == 0 then halt kernel_panic else pure e.pci_cur_device

    unfoldable pub free_pci_device : ℕ → Action Emulation Unit
    free_pci_device dev = do
      e ← get
      if dev == e.pci_cur_device then pure tt else halt kernel_panic
      core.unregister_driver pci_platform_remove_one
      e' ← get
      if e'.pci_cur_device == 0 then pure tt else halt kernel_panic
