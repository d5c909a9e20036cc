-- ===== src/Checks.antt =====
-- The checks of the driver's calls of the kernel, gtf/misc_checks/main.c and the smaller files beside
-- it. A routine is named like its C function, without the leading underscores and with `_check` for
-- `_MJRcheck`; it returns 0 unless it is said to return something else. `retval` and the other
-- pointers to the arguments of the wrapped call are taken as what they point to. What tells S2E of
-- memory or makes memory symbolic, and what is printed, is left out.
pub mod Allocators
pub mod Deallocators
pub mod Uses
pub mod LockCalls
pub mod Fields
pub mod Network
pub mod Buses
pub mod Timers
pub mod Bypassed
pub mod Gpio
pub mod KernelCalls
pub mod Netdev
pub mod Memory
pub mod SpinCalls
pub mod Sections
use driver_optimizer.Prelude.{false, ◌==ℤ◌, if◌then◌else◌, ℤ, pos, Option, ℕ}
use driver_optimizer.Action.{Action, null_dereference, pure, tfassert, the}

module _ {S : Type 0} where
  -- if (prepost == 0) { .. } else if (prepost == 1) { .. } else { tfassert (0); }
  abbrev pub sides : ℤ → Action S Unit → Action S Unit → Action S Unit
  sides prepost before after =
      if prepost ==ℤ pos 0 then before else if prepost ==ℤ pos 1 then after else tfassert false

  -- if (prepost == 0) { .. }
  abbrev pub before_call : ℤ → Action S Unit → Action S Unit
  before_call prepost before = if prepost ==ℤ pos 0 then before else pure tt

  -- if (prepost == 1) { .. }
  abbrev pub after_call : ℤ → Action S Unit → Action S Unit
  after_call prepost after = if prepost ==ℤ pos 1 then after else pure tt

  -- (*skb)->head, where `none` is a NULL skb
  abbrev pub head_of : Option ℕ → Action S ℕ
  head_of skb = the null_dereference skb
