-- ===== src/Emulation/I2c.antt =====
-- The emulated I2C devices, gtf/bus_i2c.c: how they are made and taken away. The list of chips has
-- MAX_CHIPS elements, so a loop that ends at MAX_CHIPS ends with the list.
use driver_optimizer.Prelude.{
  ℕ, ℤ, pos, negsuc, ◌-◌, ◌==◌, ◌==ℤ◌, ◌&&◌, ◌||◌, not, ltb, Bool, true, List, [], ◌∷◌, ◌++◌,
  Option, none, some, length, if◌then◌else◌,
}
use driver_optimizer.Action.{
  Action, pure, get, modify, halt, kernel_panic, null_dereference, out_of_bounds, ◌>>=◌, ◌>>◌,
}
use driver_optimizer.Emulation.{
  Emulation, Answers, PciCore, BoardInfo, Chip, call, i2c_add_adapter, i2c_del_adapter,
  i2c_new_device, i2c_unregister_device,
}
use driver_optimizer.Emulation.PciDevice.{initialize_pci_device, free_pci_device}

-- The loop of cleanup_devices, which gives what the array then holds.
unfoldable pub cleanup_from : List Chip → Action Emulation (List Chip)
cleanup_from [] = pure []
cleanup_from (chip ∷ chips) = if chip.chip_addr == 0 then pure (chip ∷ chips) else (do
  if chip.client == 0 then pure tt else call (i2c_unregister_device chip.client)
  chips' ← cleanup_from chips
  pure (record chip { client = 0 } ∷ chips'))

unfoldable pub cleanup_devices : Action Emulation ℤ
unfolding cleanup_from
cleanup_devices = do
  e ← get
  chips ← cleanup_from e.chips
  modify (λ s. record s { chips = chips })
  pure (pos 0)

-- The loop of alloc_chips: are the addresses before the first 0 from 0x03 to 0x77?
abbrev pub valid_addresses : List Chip → Bool
valid_addresses [] = true
valid_addresses (chip ∷ chips) =
    chip.chip_addr == 0
    || (not (ltb chip.chip_addr 3 || ltb 119 chip.chip_addr) && valid_addresses chips)

-- `einval` is EINVAL.
unfoldable pub alloc_chips : ℕ → Action Emulation ℤ
alloc_chips einval = do
  e ← get
  pure (if valid_addresses e.chips then pos 0 else negsuc (einval - 1))

abbrev pub first_addr : List Chip → ℕ
first_addr [] = 0
first_addr (chip ∷ chips) = chip.chip_addr

module _ (answers : Answers) where
  -- strcpy into the field `type`
  abbrev pub copy_name : Option (List ℕ) → Action Emulation (List ℕ)
  copy_name none = halt null_dereference
  copy_name (some name) =
      if ltb (length name) answers.i2c_name_size then pure name else halt out_of_bounds

  -- The loop of alloc_devices: the chips before the index, and from it on.
  unfoldable pub alloc_from : ℕ → List Chip → List Chip → Action Emulation (List Chip)
  unfolding cleanup_from
  alloc_from irq before [] = pure before
  alloc_from irq before (chip ∷ after) =
      if chip.chip_addr == 0 then pure (before ++ chip ∷ after) else (do
        type ← copy_name chip.name
        e ← get
        let info : BoardInfo = record { type = type; addr = chip.chip_addr; irq = irq }
        let client = answers.new_device_result e.calls info
        call (i2c_new_device info client)
        let made : Chip = record chip { board_info = info; client = client }
        if client == 0
            then cleanup_from (before ++ made ∷ after)
            else alloc_from irq (before ++ made ∷ []) after)

  unfoldable pub alloc_devices : Action Emulation ℤ
  unfolding alloc_from
  alloc_devices = do
    e ← get
    if e.i2c_pdev == 0 then halt kernel_panic else do
      chips ← alloc_from (answers.irq_of e.i2c_pdev) [] e.chips
      modify (λ s. record s { chips = chips })
      pure (pos 0)

  unfoldable pub setup_i2c_devices : ℕ → Action Emulation Unit
  unfolding alloc_chips alloc_devices
  setup_i2c_devices einval = do
    e ← get
    if first_addr e.chips == 0 then halt kernel_panic else do
      ret ← alloc_chips einval
      if ret ==ℤ pos 0 then pure tt else halt kernel_panic
      let added = answers.adapter_result e.calls
      call i2c_add_adapter
      if added ==ℤ pos 0 then pure tt else halt kernel_panic
      allocated ← alloc_devices
      if allocated ==ℤ pos 0 then pure tt else halt kernel_panic

  module _ (core : PciCore) where
    unfoldable pub initialize_i2c_device : ℤ → ℕ → Action Emulation ℤ
    unfolding setup_i2c_devices initialize_pci_device
    initialize_i2c_device g_i2c_enable einval = if g_i2c_enable ==ℤ pos 0 then pure (pos 0) else do
      pdev ← initialize_pci_device answers core
      e ← get
      if e.i2c_pdev == 0 then pure tt else halt kernel_panic
      modify (λ s. record s { i2c_pdev = pdev })
      setup_i2c_devices einval
      pure (pos 0)

    unfoldable pub free_i2c_device : ℤ → Action Emulation Unit
    unfolding cleanup_devices free_pci_device
    free_i2c_device g_i2c_enable = if g_i2c_enable ==ℤ pos 0 then pure tt else do
      _ ← cleanup_devices
      call i2c_del_adapter
      e ← get
      free_pci_device answers core e.i2c_pdev
      e' ← get
      if e'.i2c_pdev == 0 then halt kernel_panic else modify (λ s. record s { i2c_pdev = 0 })
