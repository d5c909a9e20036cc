-- ===== src/State/Headers.antt =====
-- What the code takes from the headers of the Linux kernel, which are not part of the repository.
use driver_optimizer.Prelude.{ℕ, ℤ, Bool}

pub record Kernel : Type 0 where
  -- IS_ERR (linux/err.h): is this word an error code cast to a pointer?
  pub is_err : ℕ → Bool
  -- EPERM, ENXIO, ENODEV, EINVAL, GFP_ATOMIC and GFP_KERNEL, CAP_NET_ADMIN, and the four ioctl
  -- numbers that are looked up
  pub eperm : ℕ
  pub enxio : ℕ
  pub enodev : ℕ
  pub einval : ℕ
  pub gfp_atomic : ℕ
  pub gfp_kernel : ℕ
  pub cap_net_admin : ℤ
  pub siocgmiireg : ℤ
  pub siocsmiireg : ℤ
  pub siocdevprivate_2 : ℤ
  pub siocsifaddr : ℤ
  -- __QUEUE_STATE_XOFF (linux/netdevice.h), and whether test_bit finds a bit set in a word
  pub queue_state_xoff : ℕ
  pub test_bit : ℕ → ℕ → Bool
