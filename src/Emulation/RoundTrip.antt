-- ===== src/Emulation/RoundTrip.antt =====
-- The emulated I2C devices are made and taken away again, gtf/bus_i2c.c and gtf/bus_generic_pci.c.
use driver_optimizer.Prelude.{
  ℕ, ℤ, ◌≡◌, refl, pos, ◌+◌, ◌≤◌, ◌==◌, ◌==ℤ◌, ==-refl, true, false, List, [], ◌∷◌, arith,
}
use driver_optimizer.Action.{Action, ok, pure, ◌>>=◌}
use driver_optimizer.Emulation.{
  Emulation, Answers, PciCore, Chip, KernelCall, pci_enable_device, pci_disable_device, kzalloc,
  kfree, i2c_add_adapter, i2c_del_adapter,
}
use driver_optimizer.Emulation.PciDevice.{
  pci_platform_probe, pci_platform_remove_one, initialize_pci_device, free_pci_device,
}
use driver_optimizer.Emulation.I2c.{
  alloc_chips, first_addr, valid_addresses, alloc_devices, cleanup_devices, setup_i2c_devices,
  initialize_i2c_device, free_i2c_device,
}
use driver_optimizer.Emulation.Clients.{
  devices, held, all_used, all_vacant, cleaned, unregistered, cleanup_from_lem, held-cleaned,
  devices-unregistered,
}
use driver_optimizer.Emulation.Making.{all_named, alloc_from_lem}

-- What the framework relies on of the kernel's PCI core: the driver's two functions are called for the
-- one device that S2E emulates.
pub record FindsDevice (core : PciCore) (device : ℕ) : Type 0 where
  pub registers :
      (probe : ℕ → Action Emulation ℤ) (s : Emulation)
      → core.register_driver probe s ≡ (probe device >>= λ _. pure (pos 0)) s
  pub unregisters :
      (remove : ℕ → Action Emulation Unit) (s : Emulation)
      → core.unregister_driver remove s ≡ remove device s

module _ (answers : Answers) (core : PciCore) (device : ℕ) (finds : FindsDevice core device)
    (real : (device == 0) ≡ false)
    (memory : (calls : List KernelCall) → (answers.kzalloc_result calls == 0) ≡ false)
    (enables : (calls : List KernelCall)
      → (answers.enable_result calls device ==ℤ pos 0) ≡ true) where
  pci_found :
      (s : Emulation)
      → (s.pci_cur_device == 0) ≡ true
      → initialize_pci_device answers core s
        ≡ ok (
          device,
          record s {
            calls = pci_enable_device device ∷ kzalloc (answers.kzalloc_result s.calls) ∷ s.calls;
            pci_cur_device = device;
            drvdata = answers.kzalloc_result s.calls;
          },
        )
  unfolding initialize_pci_device pci_platform_probe
  pci_found s none_yet =
      rw
        (
          finds.registers (pci_platform_probe answers) s,
          memory s.calls,
          none_yet,
          enables (kzalloc (answers.kzalloc_result s.calls) ∷ s.calls),
          real,
        )
        refl

  pci_lost :
      (s : Emulation)
      → s.pci_cur_device ≡ device
      → (s.drvdata == 0) ≡ false
      → free_pci_device answers core device s
        ≡ ok (
          tt,
          record s {
            calls = kfree s.drvdata ∷ pci_disable_device device ∷ s.calls;
            pci_cur_device = 0;
            drvdata = 0;
          },
        )
  unfolding free_pci_device pci_platform_remove_one
  pci_lost s current bound =
      let same : (device == s.pci_cur_device) ≡ true = rw current (==-refl device) in
      let there : (s.pci_cur_device == 0) ≡ false = rw current real in
      rw (same, finds.unregisters (pci_platform_remove_one answers) s, there, bound) refl

  -- the result and the chips that are there, with the clients that the kernel has
  all_held :
      (s : Emulation)
      → (s.i2c_pdev == 0) ≡ false
      → all_vacant s.chips ≡ true
      → all_named answers s.chips ≡ true
      → (chips : List Chip) × (calls : List KernelCall) × (alloc_devices answers s
          ≡ ok (pos 0, record s { chips = chips; calls = calls }))
        × ((x : ℕ) → devices calls x ≡ devices s.calls x + held chips x)
  unfolding alloc_devices held all_used
  all_held s found vacant named =
      let (chips, calls, ran, exact) =
        alloc_from_lem answers (answers.irq_of s.i2c_pdev) [] s.chips s refl vacant named
          (λ x. omega arith) in
      (chips, calls, rw (found, ran) refl, λ x. let e = exact x in omega arith)

  none_held :
      (s : Emulation)
      → ((x : ℕ) → held s.chips x ≤ devices s.calls x)
      → (chips : List Chip) × (calls : List KernelCall) × (cleanup_devices s
          ≡ ok (pos 0, record s { chips = chips; calls = calls }))
        × ((x : ℕ) → devices calls x + held s.chips x ≡ devices s.calls x)
        × ((x : ℕ) → held chips x ≡ 0)
  unfolding cleanup_devices
  none_held s enough = (
    cleaned s.chips,
    unregistered s.chips s.calls,
    rw (cleanup_from_lem s.chips s) refl,
    devices-unregistered s.chips s.calls enough,
    held-cleaned s.chips,
  )

  module _ (einval : ℕ)
      (adds : (calls : List KernelCall) → (answers.adapter_result calls ==ℤ pos 0) ≡ true) where
    chips_set_up :
        (s : Emulation)
        → (s.i2c_pdev == 0) ≡ false
        → (first_addr s.chips == 0) ≡ false
        → valid_addresses s.chips ≡ true
        → all_vacant s.chips ≡ true
        → all_named answers s.chips ≡ true
        → (chips : List Chip) × (calls : List KernelCall) × (setup_i2c_devices answers einval s
            ≡ ok (tt, record s { chips = chips; calls = calls }))
          × ((x : ℕ) → devices calls x ≡ devices s.calls x + held chips x)
    unfolding setup_i2c_devices alloc_chips devices
    chips_set_up s found some_chip valid vacant named =
        let added = record s { calls = i2c_add_adapter ∷ s.calls } in
        let (chips, calls, ran, exact) = all_held added found vacant named in
        (chips, calls, rw (some_chip, valid, adds s.calls, ran) refl, exact)

    initialized :
        (s : Emulation)
        → (s.pci_cur_device == 0) ≡ true
        → (s.i2c_pdev == 0) ≡ true
        → (first_addr s.chips == 0) ≡ false
        → valid_addresses s.chips ≡ true
        → all_vacant s.chips ≡ true
        → all_named answers s.chips ≡ true
        → (chips : List Chip) × (calls : List KernelCall) × (initialize_i2c_device answers core
              (pos 1)
              einval
              s
            ≡ ok (
              pos 0,
              record s {
                calls = calls;
                pci_cur_device = device;
                drvdata = answers.kzalloc_result s.calls;
                i2c_pdev = device;
                chips = chips;
              },
            ))
          × ((x : ℕ) → devices calls x ≡ devices s.calls x + held chips x)
    unfolding initialize_i2c_device devices
    initialized s none_yet unused some_chip valid vacant named =
        let with_pci = record s {
          calls = pci_enable_device device ∷ kzalloc (answers.kzalloc_result s.calls) ∷ s.calls;
          pci_cur_device = device;
          drvdata = answers.kzalloc_result s.calls;
          i2c_pdev = device;
        } in
        let (chips, calls, ran, exact) = chips_set_up with_pci real some_chip valid vacant named in
        (chips, calls, rw (pci_found s none_yet, unused, ran) refl, exact)

    -- The emulated I2C devices are taken away as they were made. From a state in which nothing is made,
    -- with chips at valid addresses, the first one in use, and names that fit, where the memory, the
    -- device and the adapter are given by the kernel, initialize_i2c_device and then free_i2c_device
    -- return, whichever clients the kernel makes or refuses: the kernel then has each client as often
    -- as before, no chip in use has one, and the pointers to the PCI device are NULL again.
    pub free-initialize :
        (s : Emulation)
        → (s.pci_cur_device == 0) ≡ true
        → (s.i2c_pdev == 0) ≡ true
        → (first_addr s.chips == 0) ≡ false
        → valid_addresses s.chips ≡ true
        → all_vacant s.chips ≡ true
        → all_named answers s.chips ≡ true
        → (chips : List Chip) × (calls : List KernelCall) × ((initialize_i2c_device answers core
                  (pos 1)
                  einval
                >>= λ _. free_i2c_device answers core (pos 1))
              s
            ≡ ok (
              tt,
              record s {
                calls = calls;
                pci_cur_device = 0;
                drvdata = 0;
                i2c_pdev = 0;
                chips = chips;
              },
            ))
          × ((x : ℕ) → (devices calls x ≡ devices s.calls x) × (held chips x ≡ 0))
    unfolding free_i2c_device devices
    free-initialize s none_yet unused some_chip valid vacant named =
        let (chips, calls, ran, exact) =
          initialized s none_yet unused some_chip valid vacant named in
        let there = record s {
          calls = calls;
          pci_cur_device = device;
          drvdata = answers.kzalloc_result s.calls;
          i2c_pdev = device;
          chips = chips;
        } in
        let (chips', calls', ran', exact', none_left) =
          none_held there (λ x. let e = exact x in omega arith) in
        let left = record there { calls = i2c_del_adapter ∷ calls'; chips = chips' } in
        (
          chips',
          kfree (answers.kzalloc_result s.calls)
              ∷ pci_disable_device device
              ∷ i2c_del_adapter
              ∷ calls',
          rw (ran, ran', pci_lost left refl (memory s.calls), real) refl,
          λ x. (let e = exact x in let e' = exact' x in omega arith, none_left x),
        )
