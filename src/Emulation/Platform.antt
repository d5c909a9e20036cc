-- ===== src/Emulation/Platform.antt =====
-- The emulated platform device, gtf/bus_platform.c. The sizes that setup_platform_device compares are
-- equal on a 32-bit kernel. The fields of tf_platform_device other than its resources are constants.
use driver_optimizer.Prelude.{
  false, take, ltb, length, Bool, ℕ, ℤ, pos, negsuc, zero, suc, ◌==◌, ◌==ℤ◌, not, bit_and, List,
  Option, if◌then◌else◌,
}
use driver_optimizer.Action.{
  Action, pure, get, modify, halt, kernel_panic, read_at, write_at, ◌>>=◌, ◌>>◌,
}
use driver_optimizer.Emulation.{
  Emulation, Answers, PciCore, Resource, call, platform_device_register, platform_device_unregister,
}
use driver_optimizer.Emulation.PciDevice.{initialize_pci_device, free_pci_device}

-- IORESOURCE_MEM and IORESOURCE_IRQ, as the comment in setup_platform_device quotes them
abbrev pub ioresource_mem : ℕ
ioresource_mem = 512

abbrev pub ioresource_irq : ℕ
ioresource_irq = 1024

abbrev pub pci_max_resources : ℕ
pci_max_resources = 6

-- how often a loop from 0 to `nr` runs
abbrev pub iterations : ℤ → ℕ
iterations (pos n) = n
iterations (negsuc n) = 0

-- nr > PCI_MAX_RESOURCES
abbrev pub too_many : ℤ → Bool
too_many (pos n) = ltb pci_max_resources n
too_many (negsuc n) = false

module _ (answers : Answers) (g_platform_rflags : List ℕ)
    (g_platform_rnames : List (Option (List ℕ))) where
  -- what the loop writes at an index
  unfoldable pub resource_at : ℕ → ℕ → Action Emulation Resource
  resource_at pdev i = do
    flags ← read_at g_platform_rflags i
    if not (bit_and flags ioresource_mem == 0)
        then (do
          name ← read_at g_platform_rnames i
          pure record {
            start = answers.resource_start pdev i;
            end = answers.resource_end pdev i;
            name = name;
            flags = flags;
          })
        else if not (bit_and flags ioresource_irq == 0)
        then (do
          name ← read_at g_platform_rnames i
          pure record { start = answers.irq_of pdev; end = 0; name = name; flags = flags })
        else halt kernel_panic

  -- The loop over the resources, from an index on.
  unfoldable pub resources_from : ℕ → ℕ → Action Emulation Unit
  unfolding resource_at
  resources_from i zero = pure tt
  resources_from i (suc left) = do
    e ← get
    resource ← resource_at e.platform_pdev i
    resources ← write_at e.tf_platform_resources i resource
    modify (λ s. record s { tf_platform_resources = resources })
    resources_from (suc i) left

  module _ (g_platform_name : List ℕ) (g_platform_nr : ℤ) where
    unfoldable pub setup_platform_device : Action Emulation Unit
    unfolding resources_from
    setup_platform_device = do
      if length g_platform_name == 0 then halt kernel_panic else pure tt
      if too_many g_platform_nr then halt kernel_panic else pure tt
      resources_from 0 (iterations g_platform_nr)
      e ← get
      let ret = answers.register_platform_result e.calls
      call (platform_device_register (take (iterations g_platform_nr) e.tf_platform_resources))
      if ret ==ℤ pos 0 then pure tt else halt kernel_panic

    module _ (core : PciCore) where
      unfoldable pub initialize_platform_device : ℤ → Action Emulation ℤ
      unfolding setup_platform_device initialize_pci_device
      initialize_platform_device g_platform_enable =
          if g_platform_enable ==ℤ pos 0 then pure (pos 0) else do
            pdev ← initialize_pci_device answers core
            e ← get
            if e.platform_pdev == 0 then pure tt else halt kernel_panic
            modify (λ s. record s { platform_pdev = pdev })
            setup_platform_device
            pure (pos 0)

module _ (answers : Answers) (core : PciCore) where
  unfoldable pub free_platform_device : ℤ → Action Emulation Unit
  unfolding free_pci_device
  free_platform_device g_platform_enable = if g_platform_enable ==ℤ pos 0 then pure tt else do
    call platform_device_unregister
    e ← get
    free_pci_device answers core e.platform_pdev
    e' ← get
    if e'.platform_pdev == 0
        then halt kernel_panic
        else modify (λ s. record s { platform_pdev = 0 })
