-- ===== src/Structs.antt =====
-- The checks of the kernel's calls of the driver, gtf/structs/: a file of it has one routine for each
-- function of one of the kernel's structures. A routine is named like its C function, without
-- `_MJRcheck`, and returns 0. What is printed, and the calls that change the priority of the path in
-- S2E, are left out.
pub mod FileOperations
pub mod MemoryAndBus
pub mod UsbDriver
pub mod NetDevice
pub mod Devices
pub mod Routines
pub mod Nesting
use driver_optimizer.Prelude.{ℤ}
use driver_optimizer.Action.{Action, pure}
use driver_optimizer.State.{BlockingContext, UserContext}
use driver_optimizer.KernelState.{push_kernel_state, pop_kernel_state}
use driver_optimizer.Framework.{Framework, on_global_state, check_routine}
use driver_optimizer.Checks.{sides}

module _ {T : Type 0} where
  -- The body that most of the routines have: the contexts of the call are pushed and popped.
  unfoldable pub entry_point : BlockingContext → UserContext → ℤ → Action (Framework T) Unit
  entry_point blocking user prepost =
      check_routine
        (on_global_state (sides prepost (push_kernel_state blocking user) pop_kernel_state))

  -- The body of the others, between check_routine_start and check_routine_end.
  unfoldable pub unchecked : Action (Framework T) Unit
  unchecked = check_routine (pure tt)
