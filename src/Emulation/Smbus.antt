-- ===== src/Emulation/Smbus.antt =====
-- A transfer on the emulated I2C bus, stub_xfer of gtf/bus_i2c.c. The union of the data is its bytes,
-- and none where the pointer is NULL. `symbolic` is what S2E chooses for the byte at an offset.
use driver_optimizer.Prelude.{
  ℕ, ℤ, pos, negsuc, zero, suc, ◌-◌, ◌%◌, ◌==◌, ◌||◌, Bool, true, false, List, [], ◌∷◌, Option,
  none, some, if◌then◌else◌,
}
use driver_optimizer.Action.{
  Action, pure, get, put, halt, kernel_panic, null_dereference, the, read_at, write_at, ◌>>=◌, ◌>>◌,
}
use driver_optimizer.Emulation.{Chip}

-- The cases of the switch.
pub data Protocol : Type 0 where
  smbus_quick smbus_byte smbus_byte_data smbus_word_data smbus_proc_call : Protocol
  smbus_i2c_block_data smbus_i2c_block_broken smbus_block_proc_call : Protocol
  smbus_block_data smbus_unsupported : Protocol

abbrev pub is_null : Option (List ℕ) → Bool
is_null none = true
is_null (some bytes) = false

abbrev pub Bytes : Type 0
Bytes = Option (List ℕ)

abbrev pub set_byte : ℕ → ℕ → Action Bytes Unit
set_byte i byte = do
  data' ← get
  bytes ← the null_dereference data'
  bytes' ← write_at bytes i (byte % 256)
  put (some bytes')

-- The bytes from an offset on become symbolic.
unfoldable pub fill : (ℕ → ℕ) → ℕ → ℕ → Action Bytes Unit
fill symbolic i zero = pure tt
fill symbolic i (suc left) = do set_byte i (symbolic i); fill symbolic (suc i) left

-- The search for the chip.
unfoldable pub has_chip : List Chip → ℕ → Bool
has_chip [] addr = false
has_chip (chip ∷ chips) addr =
    if chip.chip_addr == 0 then false else addr == chip.chip_addr || has_chip chips addr

module _ (symbolic : ℕ → ℕ) (is_write : Bool) where
  abbrev pub unless_write : Action Bytes Unit → Action Bytes Unit
  unless_write read = if is_write then pure tt else read

  -- the switch
  unfoldable pub transfer_data : Protocol → Action Bytes Unit
  unfolding fill
  transfer_data smbus_quick = pure tt
  transfer_data smbus_byte = unless_write (fill symbolic 0 1)
  transfer_data smbus_byte_data = unless_write (fill symbolic 0 1)
  transfer_data smbus_word_data = unless_write (fill symbolic 0 2)
  transfer_data smbus_proc_call = fill symbolic 0 2
  transfer_data smbus_i2c_block_data = do
    data' ← get
    bytes ← the null_dereference data'
    len ← read_at bytes 0
    unless_write (fill symbolic 1 len)
  transfer_data smbus_i2c_block_broken = halt kernel_panic
  transfer_data smbus_block_proc_call = halt kernel_panic
  transfer_data smbus_block_data = halt kernel_panic
  transfer_data smbus_unsupported = halt kernel_panic

  -- `fails` says whether the value that the first fork chooses is an error; `einval` and `enodev` are
  -- the kernel's numbers.
  unfoldable pub stub_xfer : ℕ → ℕ → Bool → List Chip → ℕ → Protocol → Action Bytes ℤ
  unfolding has_chip transfer_data
  stub_xfer einval enodev fails chips addr protocol =
      if fails
      then pure (negsuc (einval - 1))
      else if has_chip chips addr
      then (do transfer_data protocol; pure (pos 0))
      else pure (negsuc (enodev - 1))
