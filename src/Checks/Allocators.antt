-- ===== src/Checks/Allocators.antt =====
-- The checks of calls that return an object, gtf/misc_checks/main.c, class.c and driver_core.c.
-- `retval` is NULL as 0; a buffer is given by its `head`, with `none` for a NULL buffer.
use driver_optimizer.Prelude.{
  ℕ, zero, suc, ◌*◌, List, Option, is_none, false, ◌==ℤ◌, if◌then◌else◌, ℤ, pos,
}
use driver_optimizer.Action.{Action, pure, tfassert, ◌>>=◌}
use driver_optimizer.Hashtable.{Hashtable}
use driver_optimizer.State.{
  HValue, Kernel, ulong_max, origin_kmalloc, origin_vmalloc, origin_get_free_pages,
  origin_dma_alloc_coherent, origin_skb_dma_map, origin_alloc_etherdev_mqs, origin_alloc_urb,
  origin_device_register, origin_get_device, origin_ioremap, origin_dev_alloc_skb,
  origin_class_create, origin_devicefile_create,
}
use driver_optimizer.KernelState.{mem_flags_test}
use driver_optimizer.ObjectTracker.{generic_allocator}
use driver_optimizer.Framework.{Framework, on_global_state, check_routine}
use driver_optimizer.Checks.{sides, before_call, after_call, head_of}

-- 1 << order; the kernel's orders are far below the width of an `int`
abbrev pub shifted : ℕ → ℕ
shifted zero = 1
shifted (suc order) = shifted order * 2

module _ {T : Type 0} ⦃h : Hashtable T HValue⦄ ⦃k : Kernel⦄ where
  -- __netdev_alloc_skb
  unfoldable pub netdev_alloc_skb_check : List ℕ → ℤ → Option ℕ → Action (Framework T) Unit
  netdev_alloc_skb_check fn prepost retval = check_routine (
      after_call prepost (
        if is_none retval then pure tt else (do
          head ← head_of retval
          on_global_state (generic_allocator fn prepost head ulong_max origin_dev_alloc_skb))))

  -- __alloc_skb; `size_at` is the address of the argument `size`, which the code passes as the size
  unfoldable pub alloc_skb_check : List ℕ → ℤ → Option ℕ → ℕ → Action (Framework T) Unit
  alloc_skb_check fn prepost retval size_at = check_routine (
      after_call prepost (do
        head ← head_of retval
        on_global_state (generic_allocator fn prepost head size_at origin_dev_alloc_skb)))

  unfoldable pub dev_alloc_skb_check : List ℕ → ℤ → Option ℕ → Action (Framework T) Unit
  dev_alloc_skb_check fn prepost retval = check_routine (
      sides prepost (pure tt) (do
        head ← head_of retval
        on_global_state (generic_allocator fn prepost head ulong_max origin_dev_alloc_skb)))

  unfoldable pub device_register_check : List ℕ → ℤ → ℤ → ℕ → Action (Framework T) Unit
  device_register_check fn prepost retval dev = check_routine (
      on_global_state (
        if prepost ==ℤ pos 0
        then pure tt
        else if prepost ==ℤ pos 1
        then generic_allocator fn prepost dev ulong_max
            (if retval ==ℤ pos 0 then origin_device_register else origin_get_device)
        else pure tt))

  -- __request_region
  unfoldable pub request_region_check : List ℕ → ℤ → ℕ → ℕ → Action (Framework T) Unit
  request_region_check fn prepost start n =
      check_routine
        (on_global_state (after_call prepost (generic_allocator fn prepost start n origin_kmalloc)))

  unfoldable pub usb_alloc_urb_check : List ℕ → ℤ → ℕ → Action (Framework T) Unit
  usb_alloc_urb_check fn prepost retval = check_routine (
      on_global_state
        (after_call prepost (generic_allocator fn prepost retval ulong_max origin_alloc_urb)))

  -- __get_free_pages
  unfoldable pub get_free_pages_check : List ℕ → ℤ → ℕ → ℕ → Action (Framework T) Unit
  get_free_pages_check fn prepost retval order = check_routine (
      on_global_state (
        sides prepost (pure tt)
          (generic_allocator fn prepost retval (shifted order) origin_get_free_pages)))

  unfoldable pub dma_alloc_coherent_check : List ℕ → ℤ → ℕ → ℕ → Action (Framework T) Unit
  dma_alloc_coherent_check fn prepost retval size = check_routine (
      on_global_state (
        sides prepost (pure tt)
          (generic_allocator fn prepost retval size origin_dma_alloc_coherent)))

  -- The code tests `prepost == 1` twice, so that its second branch is never taken.
  unfoldable pub skb_dma_map_check : List ℕ → ℤ → ℕ → Action (Framework T) Unit
  skb_dma_map_check fn prepost skb = check_routine (
      on_global_state (
        if prepost ==ℤ pos 1
        then pure tt
        else if prepost ==ℤ pos 1
        then generic_allocator fn prepost skb ulong_max origin_skb_dma_map
        else tfassert false))

  unfoldable pub alloc_etherdev_mqs_check : List ℕ → ℤ → ℕ → Action (Framework T) Unit
  alloc_etherdev_mqs_check fn prepost retval = check_routine (
      on_global_state (
        sides prepost (pure tt)
          (generic_allocator fn prepost retval ulong_max origin_alloc_etherdev_mqs)))

  unfoldable pub alloc_netdev_mqs_check : List ℕ → ℤ → ℕ → Action (Framework T) Unit
  alloc_netdev_mqs_check fn prepost retval = check_routine (
      on_global_state (
        sides prepost (pure tt)
          (generic_allocator fn prepost retval ulong_max origin_alloc_etherdev_mqs)))

  -- __kmalloc
  unfoldable pub kmalloc_check : List ℕ → ℤ → ℕ → ℕ → ℕ → Action (Framework T) Unit
  kmalloc_check fn prepost retval size mem_flags = check_routine (
      on_global_state (
        sides prepost (mem_flags_test k.gfp_atomic k.gfp_kernel mem_flags)
          (generic_allocator fn prepost retval size origin_kmalloc)))

  unfoldable pub kstrdup_check : List ℕ → ℤ → ℕ → ℕ → Action (Framework T) Unit
  kstrdup_check fn prepost retval mem_flags = check_routine (
      on_global_state (
        if prepost ==ℤ pos 0
        then mem_flags_test k.gfp_atomic k.gfp_kernel mem_flags
        else if prepost ==ℤ pos 1
        then generic_allocator fn prepost retval ulong_max origin_kmalloc
        else pure tt))

  unfoldable pub vmalloc_check : List ℕ → ℤ → ℕ → ℕ → Action (Framework T) Unit
  vmalloc_check fn prepost retval size = check_routine (
      on_global_state
        (sides prepost (pure tt) (generic_allocator fn prepost retval size origin_vmalloc)))

  unfoldable pub ioremap_nocache_check : List ℕ → ℤ → ℕ → ℕ → Action (Framework T) Unit
  ioremap_nocache_check fn prepost retval size = check_routine (
      on_global_state
        (after_call prepost (generic_allocator fn prepost retval size origin_ioremap)))

  -- __class_create
  unfoldable pub class_create_check : List ℕ → ℤ → ℕ → Action (Framework T) Unit
  class_create_check fn prepost retval = check_routine (
      on_global_state (
        sides prepost (pure tt) (
          if k.is_err retval
          then pure tt
          else generic_allocator fn prepost retval ulong_max origin_class_create)))

  -- `retval` is the word of the `int`, as IS_ERR_VALUE reads it
  unfoldable pub device_create_file_check : List ℕ → ℤ → ℕ → ℕ → Action (Framework T) Unit
  device_create_file_check fn prepost retval attr = check_routine (
      on_global_state (
        sides prepost (pure tt) (
          if k.is_err retval
          then pure tt
          else generic_allocator fn prepost attr ulong_max origin_devicefile_create)))

module _ {T : Type 0} where
  -- dma_alloc_from_coherent and dma_release_from_coherent, whose bodies are commented out
  unfoldable pub dma_alloc_from_coherent_check : ℤ → Action (Framework T) Unit
  dma_alloc_from_coherent_check prepost = check_routine (after_call prepost (pure tt))

  unfoldable pub dma_release_from_coherent_check : ℤ → Action (Framework T) Unit
  dma_release_from_coherent_check prepost = check_routine (before_call prepost (pure tt))
