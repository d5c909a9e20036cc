-- ===== src/Emulation/Messages.antt =====
-- Messages on the emulated I2C bus, process_message and master_xfer of gtf/bus_i2c.c, and stub_func.
use driver_optimizer.Prelude.{
  ℕ, ℤ, pos, negsuc, zero, suc, ◌+◌, ◌-◌, ◌==◌, ◌==ℤ◌, bit_and, List, set, if◌then◌else◌,
}
use driver_optimizer.Action.{Action, pure, get, read_at, zoom, ◌>>=◌, ◌>>◌}
use driver_optimizer.State.{Kernel, ulong_max}
use driver_optimizer.Emulation.Platform.{iterations}
use driver_optimizer.Emulation.Smbus.{Bytes, set_byte, fill}

-- struct i2c_msg (linux/i2c.h)
pub record I2cMsg : Type 0 where
  pub flags : ℕ
  pub len : ℕ
  pub buf : Bytes

-- an int as the pointer that IS_ERR reads
abbrev pub as_pointer : ℤ → ℕ
as_pointer (pos n) = n
as_pointer (negsuc n) = ulong_max - n

abbrev pub on_buf : Action Bytes Unit → Action I2cMsg Unit
on_buf = zoom (λ msg. msg.buf) (λ buf msg. record msg { buf = buf })

-- `i2c_m_rd` and `i2c_m_recv_len` are I2C_M_RD and I2C_M_RECV_LEN; `symbolic` is what S2E chooses.
module _ (i2c_m_rd i2c_m_recv_len : ℕ) (symbolic : ℕ → ℕ) where
  unfoldable pub process_message : Action I2cMsg Unit
  unfolding fill
  process_message = do
    msg ← get
    if bit_and msg.flags i2c_m_rd == 0
        then pure tt
        else if bit_and msg.flags i2c_m_recv_len == 0
        then on_buf (fill symbolic 0 msg.len)
        else on_buf (do fill symbolic 0 (msg.len + 1); set_byte 0 msg.len)

  -- The loop over the messages, from an index on.
  unfoldable pub process_from : ℕ → ℕ → Action (List I2cMsg) Unit
  unfolding process_message
  process_from i zero = pure tt
  process_from i (suc left) = do
    msgs ← get
    msg ← read_at msgs i
    zoom (λ _. msg) (λ m ms. set ms i m) process_message
    process_from (suc i) left

  -- `chosen` is the result that S2E chooses.
  unfoldable pub master_xfer : ⦃k : Kernel⦄ → ℤ → ℤ → Action (List I2cMsg) ℤ
  unfolding process_from
  master_xfer ⦃k⦄ chosen num =
      if chosen ==ℤ num
      then (do process_from 0 (iterations num); pure chosen)
      else if k.is_err (as_pointer chosen)
      then pure chosen
      else pure (pos 0)

-- STUB_FUNC & g_i2c_functionality
abbrev pub stub_func : ℕ → ℕ → ℕ
stub_func functions g_i2c_functionality = bit_and functions g_i2c_functionality
