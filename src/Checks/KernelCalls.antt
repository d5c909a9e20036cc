-- ===== src/Checks/KernelCalls.antt =====
-- The checks of the kernel's allocators, gtf/misc_checks/main.c, as the driver calls them,
-- and what each call does to a map of objects.
use driver_optimizer.Prelude.{
  ℕ, Bool, true, ◌==◌, Option, none, some, List, [], ◌∷◌, pos, if◌then◌else◌,
}
use driver_optimizer.Action.{Action, pure, ◌>>◌}
use driver_optimizer.Hashtable.{Hashtable}
use driver_optimizer.State.{
  HValue, Kernel, BlockingContext, may_block, may_be_atomic, ulong_max, origin_kmalloc,
  origin_vmalloc, origin_get_free_pages, origin_dma_alloc_coherent, origin_alloc_etherdev_mqs,
  origin_alloc_urb, origin_ioremap,
}
use driver_optimizer.ObjectTracker.Allocation.{Event, allocated, freed, Records, spec_step}
use driver_optimizer.Framework.{Framework}
use driver_optimizer.Checks.Allocators.{
  shifted, kmalloc_check, kstrdup_check, vmalloc_check, get_free_pages_check,
  dma_alloc_coherent_check, usb_alloc_urb_check, alloc_etherdev_mqs_check, ioremap_nocache_check,
}
use driver_optimizer.Checks.Deallocators.{
  kfree_check, vfree_check, free_pages_check, dma_free_coherent_check, usb_free_urb_check,
  iounmap_check,
}

-- A call of the kernel by the driver, with its arguments and what the kernel returns.
pub data KernelCall : Type 0 where
  kmalloc : List ℕ → ℕ → ℕ → ℕ → KernelCall
  kstrdup vmalloc get_free_pages dma_alloc_coherent ioremap : List ℕ → ℕ → ℕ → KernelCall
  usb_alloc_urb alloc_etherdev : List ℕ → ℕ → KernelCall
  kfree vfree free_pages dma_free_coherent usb_free_urb iounmap : ℕ → KernelCall

-- the flags of an allocation
abbrev pub mem_flags_of : KernelCall → Option ℕ
mem_flags_of (kmalloc fn size mem_flags retval) = some mem_flags
mem_flags_of (kstrdup fn mem_flags retval) = some mem_flags
mem_flags_of _ = none

-- what a call means to the tracker, if anything
abbrev pub event_of : KernelCall → Option Event
event_of (kmalloc fn size mem_flags retval) = some (allocated fn retval size origin_kmalloc)
event_of (kstrdup fn mem_flags retval) = some (allocated fn retval ulong_max origin_kmalloc)
event_of (vmalloc fn size retval) = some (allocated fn retval size origin_vmalloc)
event_of (get_free_pages fn order retval) =
    some (allocated fn retval (shifted order) origin_get_free_pages)
event_of (dma_alloc_coherent fn size retval) =
    some (allocated fn retval size origin_dma_alloc_coherent)
event_of (ioremap fn size retval) = some (allocated fn retval size origin_ioremap)
event_of (usb_alloc_urb fn retval) = some (allocated fn retval ulong_max origin_alloc_urb)
event_of (alloc_etherdev fn retval) = some (allocated fn retval ulong_max origin_alloc_etherdev_mqs)
event_of (kfree object) = if object == 0 then none else some (freed object origin_kmalloc)
event_of (vfree object) = if object == 0 then none else some (freed object origin_vmalloc)
event_of (usb_free_urb urb) = if urb == 0 then none else some (freed urb origin_alloc_urb)
event_of (free_pages addr) = some (freed addr origin_get_free_pages)
event_of (dma_free_coherent vaddr) = some (freed vaddr origin_dma_alloc_coherent)
event_of (iounmap addr) = some (freed addr origin_ioremap)

module _ ⦃k : Kernel⦄ (context : BlockingContext) where
  -- the two kinds of flags that the check knows
  abbrev pub flags_fit : Option ℕ → Bool
  flags_fit none = true
  flags_fit (some mem_flags) =
      if mem_flags == k.gfp_kernel
      then may_block context
      else if mem_flags == k.gfp_atomic
      then may_be_atomic context
      else true

  abbrev pub spec_event : Option Event → Records → Option Records
  spec_event none m = some m
  spec_event (some e) m = spec_step e m

  -- What a call does to a map, in the given context; `none` is a violation.
  abbrev pub spec_call : KernelCall → Records → Option Records
  spec_call c m = if flags_fit (mem_flags_of c) then spec_event (event_of c) m else none

  abbrev pub spec_calls : List KernelCall → Option Records → Option Records
  spec_calls calls none = none
  spec_calls [] (some m) = some m
  spec_calls (c ∷ calls) (some m) = spec_calls calls (spec_call c m)

module _ {T : Type 0} ⦃h : Hashtable T HValue⦄ ⦃k : Kernel⦄ where
  -- The checks before and after a call. `at` is the address of an argument of the wrapper.
  unfoldable pub checked : ℕ → KernelCall → Action (Framework T) Unit
  checked at (kmalloc fn size mem_flags retval) =
      kmalloc_check fn (pos 0) 0 size mem_flags >> kmalloc_check fn (pos 1) retval size mem_flags
  checked at (kstrdup fn mem_flags retval) =
      kstrdup_check fn (pos 0) 0 mem_flags >> kstrdup_check fn (pos 1) retval mem_flags
  checked at (vmalloc fn size retval) =
      vmalloc_check fn (pos 0) 0 size >> vmalloc_check fn (pos 1) retval size
  checked at (get_free_pages fn order retval) =
      get_free_pages_check fn (pos 0) 0 order >> get_free_pages_check fn (pos 1) retval order
  checked at (dma_alloc_coherent fn size retval) =
      dma_alloc_coherent_check fn (pos 0) 0 size >> dma_alloc_coherent_check fn (pos 1) retval size
  checked at (ioremap fn size retval) =
      ioremap_nocache_check fn (pos 0) 0 size >> ioremap_nocache_check fn (pos 1) retval size
  checked at (usb_alloc_urb fn retval) =
      usb_alloc_urb_check fn (pos 0) 0 >> usb_alloc_urb_check fn (pos 1) retval
  checked at (alloc_etherdev fn retval) =
      alloc_etherdev_mqs_check fn (pos 0) 0 >> alloc_etherdev_mqs_check fn (pos 1) retval
  checked at (kfree object) = kfree_check (pos 0) at object >> kfree_check (pos 1) at object
  checked at (vfree object) = vfree_check (pos 0) at object >> vfree_check (pos 1) at object
  checked at (usb_free_urb urb) =
      usb_free_urb_check (pos 0) at urb >> usb_free_urb_check (pos 1) at urb
  checked at (free_pages addr) = free_pages_check (pos 0) addr >> free_pages_check (pos 1) addr
  checked at (dma_free_coherent vaddr) =
      dma_free_coherent_check (pos 0) vaddr >> dma_free_coherent_check (pos 1) vaddr
  checked at (iounmap addr) = iounmap_check (pos 0) addr >> iounmap_check (pos 1) addr

  unfoldable pub checked_calls : ℕ → List KernelCall → Action (Framework T) Unit
  checked_calls at [] = pure tt
  checked_calls at (c ∷ calls) = do checked at c; checked_calls at calls
