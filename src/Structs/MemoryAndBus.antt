-- ===== src/Structs/MemoryAndBus.antt =====
-- The checks of the functions in a struct vm_operations_struct and a struct bus_type,
-- gtf/structs/vm_operations_struct.c and gtf/structs/bus_type.c.
use driver_optimizer.Prelude.{ℤ}
use driver_optimizer.Action.{Action}
use driver_optimizer.State.{blocking_yes, user_yes, user_no}
use driver_optimizer.Framework.{Framework}
use driver_optimizer.Structs.{entry_point, unchecked}

module _ {T : Type 0} where
  unfoldable pub vm_operations_struct_open : ℤ → Action (Framework T) Unit
  vm_operations_struct_open = entry_point blocking_yes user_yes

  unfoldable pub vm_operations_struct_close : ℤ → Action (Framework T) Unit
  vm_operations_struct_close = entry_point blocking_yes user_yes

  unfoldable pub vm_operations_struct_fault : ℤ → Action (Framework T) Unit
  vm_operations_struct_fault = entry_point blocking_yes user_yes

  unfoldable pub vm_operations_struct_page_mkwrite : ℤ → Action (Framework T) Unit
  vm_operations_struct_page_mkwrite = entry_point blocking_yes user_yes

  unfoldable pub vm_operations_struct_access : ℤ → Action (Framework T) Unit
  vm_operations_struct_access = entry_point blocking_yes user_yes

  unfoldable pub bus_type_match : ℤ → Action (Framework T) Unit
  bus_type_match = entry_point blocking_yes user_no

  unfoldable pub bus_type_uevent : ℤ → Action (Framework T) Unit
  bus_type_uevent = entry_point blocking_yes user_no

  unfoldable pub bus_type_probe : ℤ → Action (Framework T) Unit
  bus_type_probe = entry_point blocking_yes user_no

  unfoldable pub bus_type_remove : ℤ → Action (Framework T) Unit
  bus_type_remove = entry_point blocking_yes user_no

  unfoldable pub bus_type_shutdown : ℤ → Action (Framework T) Unit
  bus_type_shutdown = entry_point blocking_yes user_no

  unfoldable pub bus_type_suspend : Action (Framework T) Unit
  bus_type_suspend = unchecked

  unfoldable pub bus_type_resume : Action (Framework T) Unit
  bus_type_resume = unchecked
