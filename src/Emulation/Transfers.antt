-- ===== src/Emulation/Transfers.antt =====
-- Transfers on the emulated I2C bus stay inside the data, gtf/bus_i2c.c.
use driver_optimizer.Prelude.{
  ℕ, ◌≡◌, refl, pos, negsuc, zero, suc, ◌+◌, ◌-◌, ◌%◌, ◌≤◌, ◌<◌, Bool, true, false, List, some,
  length, set, ltb, get_elem?, length-set, get_elem?-set_ne, if◌then◌else◌, arith, ◌∙◌, Bool-cases,
  inl, inr,
}
use driver_optimizer.Action.{ok}
use driver_optimizer.Emulation.{Chip}
use driver_optimizer.Emulation.Smbus.{
  Protocol, smbus_quick, smbus_byte, smbus_byte_data, smbus_word_data, smbus_proc_call,
  smbus_i2c_block_data, smbus_i2c_block_broken, smbus_block_proc_call, smbus_block_data,
  smbus_unsupported, fill, transfer_data, stub_xfer, has_chip,
}

-- the protocols on which the code does not panic
abbrev pub is_known : Protocol → Bool
is_known smbus_i2c_block_broken = false
is_known smbus_block_proc_call = false
is_known smbus_block_data = false
is_known smbus_unsupported = false
is_known _ = true

-- the data is as long as it was, and is the same from an offset on
abbrev pub SameFrom : ℕ → List ℕ → List ℕ → Type 0
SameFrom n bytes bytes' =
    (length bytes' ≡ length bytes) × ((j : ℕ) → n ≤ j → get_elem? bytes' j ≡ get_elem? bytes j)

module _ (symbolic : ℕ → ℕ) where
  fill_lem :
      (n i : ℕ) (bytes : List ℕ)
      → i + n ≤ length bytes
      → (bytes' : List ℕ) × (fill symbolic i n (some bytes) ≡ ok (tt, some bytes'))
        × SameFrom (i + n) bytes bytes'
  unfolding fill
  fill_lem zero i bytes fits = (bytes, refl, (refl, λ j h. refl))
  fill_lem (suc n) i bytes fits =
      let inside : ltb i (length bytes) ≡ true = ground arith in
      let (bytes', ran, (same, kept)) =
        fill_lem n (suc i) (set bytes i (symbolic i % 256))
          (rw (length-set bytes i (symbolic i % 256)) (omega arith)) in
      (
        bytes',
        rw (inside) ran,
        (
          same ∙ length-set bytes i (symbolic i % 256),
          λ j h. kept j (omega arith) ∙ get_elem?-set_ne bytes i j (symbolic i % 256) (omega arith),
        ),
      )

-- how many bytes, from the first one on, a transfer may change: `len` is the first byte
abbrev pub touched : Bool → Protocol → ℕ → ℕ
touched is_write smbus_proc_call len = 2
touched true _ len = 0
touched false smbus_byte len = 1
touched false smbus_byte_data len = 1
touched false smbus_word_data len = 2
touched false smbus_i2c_block_data len = 1 + len
touched false _ len = 0

module _ (symbolic : ℕ → ℕ) (bytes : List ℕ) (len : ℕ) (two : 2 ≤ length bytes)
    (first : get_elem? bytes 0 ≡ some len) (inside : len < length bytes) where
  transfer_lem :
      (is_write : Bool) (protocol : Protocol)
      → is_known protocol ≡ true
      → (bytes' : List ℕ) × (transfer_data symbolic is_write protocol (some bytes)
          ≡ ok (tt, some bytes'))
        × SameFrom (touched is_write protocol len) bytes bytes'
  unfolding transfer_data
  transfer_lem is_write smbus_proc_call e = fill_lem symbolic 2 0 bytes two
  transfer_lem true smbus_quick e = (bytes, refl, (refl, λ j h. refl))
  transfer_lem true smbus_byte e = (bytes, refl, (refl, λ j h. refl))
  transfer_lem true smbus_byte_data e = (bytes, refl, (refl, λ j h. refl))
  transfer_lem true smbus_word_data e = (bytes, refl, (refl, λ j h. refl))
  transfer_lem true smbus_i2c_block_data e = (bytes, rw first refl, (refl, λ j h. refl))
  transfer_lem false smbus_quick e = (bytes, refl, (refl, λ j h. refl))
  transfer_lem false smbus_byte e = fill_lem symbolic 1 0 bytes (omega arith)
  transfer_lem false smbus_byte_data e = fill_lem symbolic 1 0 bytes (omega arith)
  transfer_lem false smbus_word_data e = fill_lem symbolic 2 0 bytes two
  transfer_lem false smbus_i2c_block_data e =
      let (bytes', ran, same) = fill_lem symbolic len 1 bytes (omega arith) in
      (bytes', rw (first, ran) refl, same)
  transfer_lem _ smbus_i2c_block_broken e = absurd cc
  transfer_lem _ smbus_block_proc_call e = absurd cc
  transfer_lem _ smbus_block_data e = absurd cc
  transfer_lem _ smbus_unsupported e = absurd cc

  -- A transfer on the emulated bus stays inside the data: with a protocol that the code supports, on
  -- data of two bytes at least, whose first byte, read as a length, is less than the size of the data,
  -- stub_xfer returns. The result is 0 if a chip in use has the address, else -ENODEV, unless an error
  -- is chosen, and then it is -EINVAL. The data keeps its size, and only the bytes that the protocol
  -- reads from a chip that is there, at the start of the data, are changed.
  pub stub_xfer_in_bounds :
      (einval enodev addr : ℕ) (fails is_write : Bool) (chips : List Chip) (protocol : Protocol)
      → is_known protocol ≡ true
      → (bytes' : List ℕ) × (stub_xfer symbolic is_write einval enodev fails chips addr protocol
            (some bytes)
          ≡ ok (
            if fails
                then negsuc (einval - 1)
                else if has_chip chips addr
                then pos 0
                else negsuc (enodev - 1),
            some bytes',
          ))
        × SameFrom
            (if fails then 0 else if has_chip chips addr then touched is_write protocol len else 0)
            bytes
            bytes'
  unfolding stub_xfer
  stub_xfer_in_bounds einval enodev addr true is_write chips protocol known =
      (bytes, refl, (refl, λ j h. refl))
  stub_xfer_in_bounds einval enodev addr false is_write chips protocol known =
      elim (Bool-cases (has_chip chips addr)) [
        | inl there ↦
            let (bytes', ran, same) = transfer_lem is_write protocol known in
            (bytes', rw (there, ran) refl, rw there same)
        | inr absent ↦ (bytes, rw absent refl, rw absent (refl, λ j h. refl))
      ]
