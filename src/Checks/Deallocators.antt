-- ===== src/Checks/Deallocators.antt =====
-- The checks of calls that give an object back, gtf/misc_checks/main.c, class.c and driver_core.c. A
-- buffer is given by its `head`, with `none` for a NULL buffer.
use driver_optimizer.Prelude.{ℕ, not, Option, bit_or, ◌==◌, ◌==ℤ◌, if◌then◌else◌, ℤ, pos}
use driver_optimizer.Action.{Action, pure, get, tfassert, ◌>>=◌, ◌>>◌}
use driver_optimizer.Hashtable.{Hashtable}
use driver_optimizer.State.{
  HValue, origin_kmalloc, origin_vmalloc, origin_get_free_pages, origin_dma_alloc_coherent,
  origin_skb_dma_map, origin_alloc_etherdev_mqs, origin_alloc_urb, origin_device_register,
  origin_get_device, origin_ioremap, origin_dev_alloc_skb, origin_class_create,
  origin_devicefile_create,
}
use driver_optimizer.ObjectTracker.{generic_free}
use driver_optimizer.Framework.{Framework, on_global_state, check_routine, check_routine_with}
use driver_optimizer.Checks.{sides, before_call, head_of}

module _ {T : Type 0} ⦃h : Hashtable T HValue⦄ where
  -- Returns 1, which makes the wrapper pass over the kernel's function, on a bad path.
  unfoldable pub free_netdev_check : ℤ → ℕ → Action (Framework T) ℕ
  free_netdev_check prepost dev = check_routine_with (
      if prepost ==ℤ pos 0
      then (do
        on_global_state (generic_free prepost dev origin_alloc_etherdev_mqs)
        f ← get
        pure (if f.enter_exit.bad_path == 0 then 0 else 1))
      else pure 0)

  unfoldable pub kfree_skb_check : ℤ → Option ℕ → Action (Framework T) Unit
  kfree_skb_check prepost skb = check_routine (
      before_call prepost
        (do head ← head_of skb; on_global_state (generic_free prepost head origin_dev_alloc_skb)))

  unfoldable pub dev_kfree_skb_any_check : ℤ → Option ℕ → Action (Framework T) Unit
  dev_kfree_skb_any_check prepost skb = check_routine (
      sides prepost
        (do head ← head_of skb; on_global_state (generic_free prepost head origin_dev_alloc_skb))
        (pure tt))

  unfoldable pub consume_skb_check : ℤ → Option ℕ → Action (Framework T) Unit
  consume_skb_check prepost skb = check_routine (
      sides prepost
        (do head ← head_of skb; on_global_state (generic_free prepost head origin_dev_alloc_skb))
        (pure tt))

  unfoldable pub iounmap_check : ℤ → ℕ → Action (Framework T) Unit
  iounmap_check prepost addr =
      check_routine
        (on_global_state (before_call prepost (generic_free prepost addr origin_ioremap)))

  unfoldable pub device_unregister_check : ℤ → ℕ → Action (Framework T) Unit
  device_unregister_check prepost dev = check_routine (
      on_global_state (
        before_call prepost
          (generic_free prepost dev (bit_or origin_device_register origin_get_device))))

  -- __release_region
  unfoldable pub release_region_check : ℤ → ℕ → Action (Framework T) Unit
  release_region_check prepost start =
      check_routine
        (on_global_state (before_call prepost (generic_free prepost start origin_kmalloc)))

  -- `urb_at` is the address of the argument
  unfoldable pub usb_free_urb_check : ℤ → ℕ → ℕ → Action (Framework T) Unit
  usb_free_urb_check prepost urb_at urb = check_routine (
      on_global_state (
        sides prepost
          (do
            tfassert (not (urb_at == 0))
            if urb == 0 then pure tt else generic_free prepost urb origin_alloc_urb)
          (pure tt)))

  unfoldable pub free_pages_check : ℤ → ℕ → Action (Framework T) Unit
  free_pages_check prepost addr =
      check_routine (
        on_global_state (sides prepost (generic_free prepost addr origin_get_free_pages) (pure tt)))

  unfoldable pub dma_free_coherent_check : ℤ → ℕ → Action (Framework T) Unit
  dma_free_coherent_check prepost vaddr = check_routine (
      on_global_state
        (sides prepost (generic_free prepost vaddr origin_dma_alloc_coherent) (pure tt)))

  unfoldable pub skb_dma_unmap_check : ℤ → ℕ → Action (Framework T) Unit
  skb_dma_unmap_check prepost skb =
      check_routine
        (on_global_state (sides prepost (generic_free prepost skb origin_skb_dma_map) (pure tt)))

  -- `object_at` is the address of the argument
  unfoldable pub kfree_check : ℤ → ℕ → ℕ → Action (Framework T) Unit
  kfree_check prepost object_at object = check_routine (
      on_global_state (
        sides prepost
          (do
            tfassert (not (object_at == 0))
            if object == 0 then pure tt else generic_free prepost object origin_kmalloc)
          (pure tt)))

  -- `object_at` is the address of the argument
  unfoldable pub vfree_check : ℤ → ℕ → ℕ → Action (Framework T) Unit
  vfree_check prepost object_at object = check_routine (
      on_global_state (
        sides prepost
          (do
            tfassert (not (object_at == 0))
            if object == 0 then pure tt else generic_free prepost object origin_vmalloc)
          (pure tt)))

  unfoldable pub class_destroy_check : ℤ → ℕ → Action (Framework T) Unit
  class_destroy_check prepost cls =
      check_routine
        (on_global_state (sides prepost (generic_free prepost cls origin_class_create) (pure tt)))

  unfoldable pub device_remove_file_check : ℤ → ℕ → Action (Framework T) Unit
  device_remove_file_check prepost attr = check_routine (
      on_global_state
        (sides prepost (generic_free prepost attr origin_devicefile_create) (pure tt)))
