-- ===== src/Pci/ConfigSpace.antt =====
-- The rest of the checks of a PCI driver: its configuration space (gtf/misc_checks/pci_config_space.c),
-- the calls of gtf/misc_checks/pci.c that tell S2E of a region, and the functions of
-- gtf/structs/pci_driver.c that suspend the device and wake it.
use driver_optimizer.Prelude.{ℕ, ℤ, pos, ◌==ℤ◌, if◌then◌else◌}
use driver_optimizer.Action.{Action, pure, halt, assertion}
use driver_optimizer.State.{blocking_yes, user_no}
use driver_optimizer.KernelState.{push_kernel_state, pop_kernel_state}
use driver_optimizer.Framework.{Framework, on_global_state, check_routine, check_routine_with}
use driver_optimizer.Checks.{sides, before_call, after_call}
use driver_optimizer.Pci.{pci_enable_device}

module _ {T : Type 0} where
  unfoldable pub pci_enable_device_mem : ℤ → ℤ → Action (Framework T) Unit
  pci_enable_device_mem prepost retval = pci_enable_device prepost retval

  unfoldable pub pci_iomap : ℤ → Action (Framework T) Unit
  pci_iomap prepost = check_routine (after_call prepost (pure tt))

  unfoldable pub pci_iounmap : ℤ → Action (Framework T) Unit
  pci_iounmap prepost = check_routine (before_call prepost (pure tt))

  unfoldable pub pci_driver_suspend : Action (Framework T) Unit
  pci_driver_suspend = check_routine (pure tt)

  unfoldable pub pci_driver_suspend_late : Action (Framework T) Unit
  pci_driver_suspend_late = check_routine (pure tt)

  -- the body that the next three have in common
  abbrev in_context : ℤ → Action (Framework T) Unit
  in_context prepost =
      check_routine
        (on_global_state (sides prepost (push_kernel_state blocking_yes user_no) pop_kernel_state))

  unfoldable pub pci_driver_resume_early : ℤ → Action (Framework T) Unit
  pci_driver_resume_early = in_context

  unfoldable pub pci_driver_resume : ℤ → Action (Framework T) Unit
  pci_driver_resume = in_context

  unfoldable pub pci_driver_shutdown : ℤ → Action (Framework T) Unit
  pci_driver_shutdown = in_context

  -- A read of the configuration space: `value` is what S2E makes of what the kernel has read, and
  -- `read` what it was. Each gives the value that the driver finds.
  unfoldable pub pci_bus_read_config_byte : ℤ → ℕ → ℕ → Action (Framework T) ℕ
  pci_bus_read_config_byte prepost read value = check_routine_with (
      if prepost ==ℤ pos 0
      then pure read
      else if prepost ==ℤ pos 1
      then pure value
      else halt assertion)

  unfoldable pub pci_bus_read_config_word : ℤ → ℕ → ℕ → Action (Framework T) ℕ
  pci_bus_read_config_word prepost read value = check_routine_with (
      if prepost ==ℤ pos 0
      then pure read
      else if prepost ==ℤ pos 1
      then pure value
      else halt assertion)

  unfoldable pub pci_bus_read_config_dword : ℤ → ℕ → ℕ → Action (Framework T) ℕ
  pci_bus_read_config_dword prepost read value = check_routine_with (
      if prepost ==ℤ pos 0
      then pure read
      else if prepost ==ℤ pos 1
      then pure value
      else halt assertion)

  -- A write of it, which the kernel does not make: each gives `*retval`, and what it returns.
  unfoldable pub pci_bus_write_config_byte : ℤ → ℕ → Action (Framework T) (ℕ × ℕ)
  pci_bus_write_config_byte prepost retval = check_routine_with (
      if prepost ==ℤ pos 0
      then pure (0, 1)
      else if prepost ==ℤ pos 1
      then pure (retval, 1)
      else halt assertion)

  unfoldable pub pci_bus_write_config_word : ℤ → ℕ → Action (Framework T) (ℕ × ℕ)
  pci_bus_write_config_word prepost retval = check_routine_with (
      if prepost ==ℤ pos 0
      then pure (0, 1)
      else if prepost ==ℤ pos 1
      then pure (retval, 1)
      else halt assertion)

  unfoldable pub pci_bus_write_config_dword : ℤ → ℕ → Action (Framework T) (ℕ × ℕ)
  pci_bus_write_config_dword prepost retval = check_routine_with (
      if prepost ==ℤ pos 0
      then pure (0, 1)
      else if prepost ==ℤ pos 1
      then pure (retval, 1)
      else halt assertion)

  unfoldable pub pci_find_capability : ℤ → Action (Framework T) Unit
  pci_find_capability prepost = check_routine (sides prepost (pure tt) (pure tt))
