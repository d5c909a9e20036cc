-- ===== src/Emulation/Spi.antt =====
-- The emulated SPI device, gtf/bus_spi.c. The fields of the master, of the bit-banging driver and of
-- the board that are constants are left out.
use driver_optimizer.Prelude.{
  ◌||◌, ℕ, ℤ, pos, ◌==◌, ◌==ℤ◌, ltb, length, List, Option, some, if◌then◌else◌,
}
use driver_optimizer.Action.{
  Action, pure, get, modify, halt, kernel_panic, null_dereference, out_of_bounds, the, ◌>>=◌, ◌>>◌,
}
use driver_optimizer.Emulation.{
  Emulation, Answers, PciCore, call, spi_bitbang_start, spi_bitbang_stop, spi_master_get,
  spi_master_put, spi_new_device,
}
use driver_optimizer.Emulation.Smbus.{is_null, fill}
use driver_optimizer.Emulation.PciDevice.{initialize_pci_device, free_pci_device}

-- The bytes that a transfer of `len` bytes leaves in rx_buf, which is NULL where nothing is read, are
-- the choice of S2E; the result is the number of bytes.
unfoldable pub symspi_txrx_bufs : (ℕ → ℕ) → ℕ → Action (Option (List ℕ)) ℕ
unfolding fill
symspi_txrx_bufs symbolic len = do
  rx_buf ← get
  if is_null rx_buf || len == 0 then pure tt else fill symbolic 0 len
  pure len

module _ (answers : Answers) (g_spi_name : List ℕ) where
  unfoldable pub setup_spi_devices : ℕ → Action Emulation Unit
  setup_spi_devices pdev = do
    e ← get
    let master = answers.alloc_master_result e.calls
    if master == 0 then halt kernel_panic else do
      modify (λ s. record s { spi_private = some record { pdev = pdev; master = master } })
      let bitbang_master = answers.master_get_result e.calls master
      call (spi_master_get master)
      if bitbang_master == 0 then halt kernel_panic else pure tt
      e₁ ← get
      let started = answers.bitbang_result e₁.calls
      call (spi_bitbang_start master)
      if started ==ℤ pos 0 then pure tt else halt kernel_panic
      if ltb (length g_spi_name) answers.spi_name_size then pure tt else halt out_of_bounds
      e₂ ← get
      let spi_device = answers.new_spi_result e₂.calls
      call (spi_new_device master g_spi_name (answers.irq_of pdev))
      if spi_device == 0 then halt kernel_panic else pure tt

unfoldable pub cleanup_spi_device : Action Emulation ℕ
cleanup_spi_device = do
  e ← get
  private ← the null_dereference e.spi_private
  call (spi_bitbang_stop private.master)
  call (spi_master_put private.master)
  pure private.pdev

module _ (answers : Answers) (core : PciCore) where
  unfoldable pub initialize_spi_device : List ℕ → ℤ → Action Emulation ℤ
  unfolding setup_spi_devices initialize_pci_device
  initialize_spi_device g_spi_name g_spi_enable =
      if g_spi_enable ==ℤ pos 0 then pure (pos 0) else do
        pdev ← initialize_pci_device answers core
        setup_spi_devices answers g_spi_name pdev
        pure (pos 0)

  unfoldable pub free_spi_device : ℤ → Action Emulation Unit
  unfolding cleanup_spi_device free_pci_device
  free_spi_device g_spi_enable =
      if g_spi_enable ==ℤ pos 0
      then pure tt
      else do pdev ← cleanup_spi_device; free_pci_device answers core pdev
