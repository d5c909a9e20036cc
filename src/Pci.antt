-- ===== src/Pci.antt =====
-- The checks of a PCI driver: its calls of the kernel (gtf/misc_checks/pci.c) and the kernel's calls
-- of it (gtf/structs/pci_driver.c). Each routine has the lock of the framework around it. The calls
-- that tell S2E of a region of memory, or make a field of the device symbolic, are left out.
pub mod Registration
pub mod Probe
pub mod ConfigSpace
use driver_optimizer.Prelude.{
  false, ℕ, Bool, not, ◌&&◌, ◌||◌, ◌==◌, List, ℤ, pos, ◌==ℤ◌, if◌then◌else◌,
}
use driver_optimizer.Action.{Action, ◌>>=◌, ◌>>◌, pure, get, tfassert, zoom}
use driver_optimizer.Hashtable.{Hashtable}
use driver_optimizer.State.{
  HValue, Kernel, ulong_max, CallState, not_called, in_progress, called_ok, called_failed, call_is,
  DeviceState, device_state_undefined, device_state_disabled, device_state_enabled, device_is,
  Drivers, PciDriverState, driver_pci, driver_net, class_is, blocking_yes, user_no,
  origin_pci_map_single, origin_pci_map_page, origin_ioremap,
}
use driver_optimizer.KernelState.{push_kernel_state, pop_kernel_state}
use driver_optimizer.DriverState.{
  set_call_state, set_device_state, set_driver_bus, remove_driver_bus, get_driver_class,
}
use driver_optimizer.ObjectTracker.{generic_allocator, generic_free}
use driver_optimizer.EntryPoints.{ep_init_pci_driver, ep_init_pci_dev}
use driver_optimizer.Framework.{Framework, on_global_state, on_drivers, on_ep_state, check_routine}

-- &pci_driver_state.registered and so on, as the second argument of set_call_state
abbrev pub on_registered : Action CallState Unit → Action Drivers Unit
on_registered =
    zoom (λ d. d.pci_driver_state.registered)
      (λ c d. record d { pci_driver_state = record d.pci_driver_state { registered = c } })

abbrev pub on_unregistered : Action CallState Unit → Action Drivers Unit
on_unregistered =
    zoom (λ d. d.pci_driver_state.unregistered)
      (λ c d. record d { pci_driver_state = record d.pci_driver_state { unregistered = c } })

abbrev pub on_probed : Action CallState Unit → Action Drivers Unit
on_probed =
    zoom (λ d. d.pci_driver_state.probed)
      (λ c d. record d { pci_driver_state = record d.pci_driver_state { probed = c } })

abbrev pub on_enabled : Action DeviceState Unit → Action Drivers Unit
on_enabled =
    zoom (λ d. d.pci_driver_state.enabled)
      (λ c d. record d { pci_driver_state = record d.pci_driver_state { enabled = c } })

-- not called, or called without success
abbrev pub not_done : CallState → Bool
not_done call = call_is call not_called || call_is call called_failed

-- what a network driver must have registered when its probe returns
abbrev pub probe_registers : ℤ → Action Drivers Unit
probe_registers retval = do
  on_probed (set_call_state (if retval ==ℤ pos 0 then called_ok else called_failed))
  class ← get_driver_class
  d ← get
  if class_is class driver_net
      then tfassert (
          if retval ==ℤ pos 0
          then call_is d.ndo_driver_state.register_netdev called_ok
          else not_done d.ndo_driver_state.register_netdev)
      else pure tt

module _ {T : Type 0} where
  unfoldable pub pci_enable_device : ℤ → ℤ → Action (Framework T) Unit
  unfolding check_routine set_device_state
  pci_enable_device prepost retval = check_routine (
      on_drivers (
        if prepost ==ℤ pos 0
        then (do
          d ← get
          tfassert (
              device_is d.pci_driver_state.enabled device_state_disabled
              || device_is d.pci_driver_state.enabled device_state_undefined))
        else if prepost ==ℤ pos 1
        then on_enabled (
            set_device_state
              (if retval ==ℤ pos 0 then device_state_enabled else device_state_disabled))
        else tfassert false))

  unfoldable pub pci_disable_device : ℤ → Action (Framework T) Unit
  unfolding check_routine set_device_state
  pci_disable_device prepost = check_routine (
      on_drivers (
        if prepost ==ℤ pos 0
        then (do
          d ← get
          tfassert (device_is d.pci_driver_state.enabled device_state_enabled)
          tfassert (not_done d.ndo_driver_state.register_netdev)
          tfassert (not_done d.ndo_driver_state.unregister_netdev))
        else if prepost ==ℤ pos 1
        then on_enabled (set_device_state device_state_disabled)
        else tfassert false))

  -- __pci_register_driver; `driver` is the pointer *arg0
  unfoldable pub pci_register_driver : ℤ → ℤ → ℕ → Action (Framework T) Unit
  unfolding check_routine set_call_state set_driver_bus ep_init_pci_driver
  pci_register_driver prepost retval driver = check_routine (
      if prepost ==ℤ pos 0
      then on_drivers (do
        d ← get
        tfassert (call_is d.pci_driver_state.registered not_called)
        on_registered (set_call_state in_progress)
        set_driver_bus driver_pci)
      else if prepost ==ℤ pos 1
      then (if retval ==ℤ pos 0
          then (do
            on_ep_state (ep_init_pci_driver driver)
            on_drivers (on_registered (set_call_state called_ok)))
          else on_drivers (on_registered (set_call_state called_failed)))
      else tfassert false)

  unfoldable pub pci_unregister_driver : ℤ → Action (Framework T) Unit
  unfolding check_routine set_call_state remove_driver_bus
  pci_unregister_driver prepost = check_routine (
      on_drivers (
        if prepost ==ℤ pos 0
        then (do
          d ← get
          tfassert (call_is d.pci_driver_state.registered called_ok)
          on_unregistered (set_call_state in_progress))
        else if prepost ==ℤ pos 1
        then (do
          on_registered (set_call_state not_called)
          on_unregistered (set_call_state not_called)
          remove_driver_bus driver_pci)
        else tfassert false))

  unfoldable pub pci_driver_remove : ℤ → Action (Framework T) Unit
  unfolding check_routine push_kernel_state pop_kernel_state
  pci_driver_remove prepost = check_routine (
      on_global_state (
        if prepost ==ℤ pos 0
        then push_kernel_state blocking_yes user_no
        else if prepost ==ℤ pos 1
        then pop_kernel_state
        else tfassert false))

  -- `start` and `irq` are (*dev)->resource[0].start and (*dev)->irq
  unfoldable pub pci_driver_probe : ℤ → ℤ → ℕ → ℕ → ℕ → Action (Framework T) Unit
  unfolding check_routine push_kernel_state pop_kernel_state set_call_state get_driver_class
      ep_init_pci_dev
  pci_driver_probe prepost retval dev start irq = check_routine (
      if prepost ==ℤ pos 0
      then (do
        f ← get
        tfassert (call_is f.drivers.pci_driver_state.probed not_called)
        tfassert (not (start == 0))
        tfassert (not (irq == 0))
        on_global_state (push_kernel_state blocking_yes user_no)
        on_drivers (on_probed (set_call_state in_progress))
        on_ep_state (ep_init_pci_dev dev))
      else if prepost ==ℤ pos 1
      then (do on_drivers (probe_registers retval); on_global_state pop_kernel_state)
      else tfassert false)

module _ {T : Type 0} ⦃h : Hashtable T HValue⦄ ⦃k : Kernel⦄ where
  unfoldable pub pci_ioremap_bar : List ℕ → ℤ → ℕ → Action (Framework T) Unit
  unfolding check_routine generic_allocator
  pci_ioremap_bar fn prepost retval = check_routine (
      if prepost ==ℤ pos 1
      then on_global_state (generic_allocator fn prepost retval ulong_max origin_ioremap)
      else pure tt)

  unfoldable pub pci_map_single : List ℕ → ℤ → ℕ → ℕ → Action (Framework T) Unit
  unfolding check_routine generic_allocator
  pci_map_single fn prepost retval size = check_routine (
      if prepost ==ℤ pos 1
      then on_global_state (generic_allocator fn prepost retval size origin_pci_map_single)
      else pure tt)

  unfoldable pub pci_map_page : List ℕ → ℤ → ℕ → ℕ → Action (Framework T) Unit
  unfolding check_routine generic_allocator
  pci_map_page fn prepost retval size = check_routine (
      if prepost ==ℤ pos 1
      then on_global_state (generic_allocator fn prepost retval size origin_pci_map_page)
      else pure tt)

module _ {T : Type 0} ⦃h : Hashtable T HValue⦄ where
  unfoldable pub pci_unmap_single : ℤ → ℕ → Action (Framework T) Unit
  unfolding check_routine generic_free
  pci_unmap_single prepost dma_addr = check_routine (
      if prepost ==ℤ pos 0
      then on_global_state (generic_free prepost dma_addr origin_pci_map_single)
      else pure tt)

  unfoldable pub pci_unmap_page : ℤ → ℕ → Action (Framework T) Unit
  unfolding check_routine generic_free
  pci_unmap_page prepost dma_addr = check_routine (
      if prepost ==ℤ pos 0
      then on_global_state (generic_free prepost dma_addr origin_pci_map_page)
      else pure tt)
