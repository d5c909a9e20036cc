-- ===== src/Checks/Memory.antt =====
-- The checks of the kernel's allocators, gtf/misc_checks/main.c, over a history of the driver's
-- calls, against the map of objects that the tracker implements.
use driver_optimizer.Prelude.{
  ℕ, ◌≡◌, refl, subst, Bool, true, false, not, ◌==◌, Option, none, some, List, [], ◌∷◌, pos,
  if◌then◌else◌, arith,
}
use driver_optimizer.Action.{
  Action, Stop, rejoin, Result, ok, stop, assertion, pure, tfassert, ◌>>◌, continue,
}
use driver_optimizer.Hashtable.{Hashtable}
use driver_optimizer.State.{
  HValue, GlobalState, Kernel, BlockingContext, ulong_max, origin_kmalloc, origin_vmalloc,
  origin_get_free_pages, origin_dma_alloc_coherent, origin_alloc_etherdev_mqs, origin_alloc_urb,
  origin_ioremap,
}
use driver_optimizer.KernelState.{kernel_blocking_state, mem_flags_test}
use driver_optimizer.ObjectTracker.{generic_allocator, generic_free}
use driver_optimizer.ObjectTracker.Table.{tracked}
use driver_optimizer.ObjectTracker.Allocation.{
  Event, allocated, freed, Records, spec_step, step, HasMemory, Agrees, step-Agrees,
}
use driver_optimizer.Framework.{Framework, on_global_state, check_routine}
use driver_optimizer.Framework.Locked.{test-then, then-nothing}
use driver_optimizer.Checks.Allocators.{
  shifted, kmalloc_check, kstrdup_check, vmalloc_check, get_free_pages_check,
  dma_alloc_coherent_check, usb_alloc_urb_check, alloc_etherdev_mqs_check, ioremap_nocache_check,
}
use driver_optimizer.Checks.Deallocators.{
  kfree_check, vfree_check, free_pages_check, dma_free_coherent_check, usb_free_urb_check,
  iounmap_check,
}
use driver_optimizer.Checks.KernelCalls.{
  KernelCall, kmalloc, kstrdup, vmalloc, get_free_pages, dma_alloc_coherent, ioremap, usb_alloc_urb,
  alloc_etherdev, kfree, vfree, free_pages, dma_free_coherent, usb_free_urb, iounmap, mem_flags_of,
  event_of, flags_fit, spec_event, spec_calls, checked, checked_calls,
}

module _ {T : Type 0} ⦃h : Hashtable T HValue⦄ where
  step_contexts :
      ⦃k : Kernel⦄ (e : Event) (s t : GlobalState T)
      → step e s ≡ ok (tt, t)
      → (t.blocking_context ≡ s.blocking_context)
        × (t.blocking_context_current ≡ s.blocking_context_current)
  unfolding step generic_allocator generic_free
  step_contexts (allocated fn object size origin) s t ran = ground arith
  step_contexts (freed object origin) s t ran = ground arith

module _ {T : Type 0} ⦃h : Hashtable T HValue⦄ ⦃k : Kernel⦄ (at : ℕ) (placed : (at == 0) ≡ false)
    (context : BlockingContext) (f : Framework T) (free : f.global_lock_acquired ≡ 0)
    (now : kernel_blocking_state f.global_state ≡ ok (context, f.global_state)) where
  abbrev meaning : Option {0} Event → Result {0} (Unit {0} × Framework T)
  meaning none = ok (tt, f)
  meaning (some e) = on_global_state (step e) f

  flags_test :
      (mem_flags : ℕ)
      → mem_flags_test k.gfp_atomic k.gfp_kernel mem_flags f.global_state
        ≡ (if flags_fit context (some mem_flags) then ok (tt, f.global_state) else stop assertion)
  unfolding mem_flags_test
  flags_test mem_flags = ground arith

  abbrev alloc : List ℕ → ℕ → ℕ → ℕ → Action (GlobalState T) Unit
  alloc fn retval size origin = generic_allocator fn (pos 1) retval size origin

  -- a free of a pointer that may be NULL
  abbrev free_of : ℕ → ℕ → Action (GlobalState T) Unit
  free_of object origin = if object == 0 then pure tt else generic_free (pos 0) object origin

  nullable :
      (object origin : ℕ)
      → (check_routine (on_global_state (tfassert (not (at == 0)) >> free_of object origin))
            >> check_routine (on_global_state (pure tt)))
          f
        ≡ meaning (if object == 0 then none else some (freed object origin))
  unfolding step
  nullable object origin =
      let one = then-nothing (tfassert (not (at == 0)) >> free_of object origin) f free in
      ground arith

  checked-meaning :
      (c : KernelCall)
      → checked at c f
        ≡ (if flags_fit context (mem_flags_of c) then meaning (event_of c) else stop assertion)
  unfolding checked step kmalloc_check kstrdup_check vmalloc_check get_free_pages_check
      dma_alloc_coherent_check ioremap_nocache_check usb_alloc_urb_check alloc_etherdev_mqs_check
      kfree_check vfree_check usb_free_urb_check free_pages_check dma_free_coherent_check
      iounmap_check
  checked-meaning (kmalloc fn size mem_flags retval) =
      test-then (mem_flags_test k.gfp_atomic k.gfp_kernel mem_flags)
        (alloc fn retval size origin_kmalloc) f free (flags_fit context (some mem_flags))
        (flags_test mem_flags)
  checked-meaning (kstrdup fn mem_flags retval) =
      test-then (mem_flags_test k.gfp_atomic k.gfp_kernel mem_flags)
        (alloc fn retval ulong_max origin_kmalloc) f free (flags_fit context (some mem_flags))
        (flags_test mem_flags)
  checked-meaning (vmalloc fn size retval) =
      test-then (pure tt) (alloc fn retval size origin_vmalloc) f free true refl
  checked-meaning (get_free_pages fn order retval) =
      test-then (pure tt) (alloc fn retval (shifted order) origin_get_free_pages) f free true refl
  checked-meaning (dma_alloc_coherent fn size retval) =
      test-then (pure tt) (alloc fn retval size origin_dma_alloc_coherent) f free true refl
  checked-meaning (ioremap fn size retval) =
      test-then (pure tt) (alloc fn retval size origin_ioremap) f free true refl
  checked-meaning (usb_alloc_urb fn retval) =
      test-then (pure tt) (alloc fn retval ulong_max origin_alloc_urb) f free true refl
  checked-meaning (alloc_etherdev fn retval) =
      test-then (pure tt) (alloc fn retval ulong_max origin_alloc_etherdev_mqs) f free true refl
  checked-meaning (kfree object) = nullable object origin_kmalloc
  checked-meaning (vfree object) = nullable object origin_vmalloc
  checked-meaning (usb_free_urb urb) = nullable urb origin_alloc_urb
  checked-meaning (free_pages addr) = then-nothing _ f free
  checked-meaning (dma_free_coherent vaddr) = then-nothing _ f free
  checked-meaning (iounmap addr) = then-nothing _ f free

module _ {T : Type 0} ⦃h : Hashtable T HValue⦄ where
  -- The framework went on, and its table holds the map; or it ended the path at a violation.
  abbrev pub AgreesWith : Result {0} (Unit {0} × Framework T) → Option {0} Records → Type 0
  AgreesWith (ok (u, t)) (some m) = tracked t.global_state ≡ m
  AgreesWith (ok (u, t)) none = ⊥
  AgreesWith (stop e) (some m) = ⊥
  AgreesWith (stop e) none = Unit {0}

  same_context :
      ⦃k : Kernel⦄ (e : Event) (s t : GlobalState T) (context : BlockingContext)
      → step e s ≡ ok (tt, t)
      → kernel_blocking_state s ≡ ok (context, s)
      → kernel_blocking_state t ≡ ok (context, t)
  unfolding kernel_blocking_state
  same_context e s t context ran now = let kept = step_contexts e s t ran in ground arith

module _ {T : Type 0} ⦃h : Hashtable T HValue⦄ ⦃k : Kernel⦄ (memory : HasMemory T) (at : ℕ)
    (placed : (at == 0) ≡ false) (context : BlockingContext) where
  spec_calls-none :
      (calls : List KernelCall) (e : Stop)
      → AgreesWith {T = T} (stop e) (spec_calls context calls none)
  spec_calls-none [] e = tt
  spec_calls-none (c ∷ calls) e = tt

  -- Over any history of the driver's calls of the kernel's allocators, seen before and after each
  -- call with the lock of the framework free and memory for its own table, the checks do what the map
  -- does: they go on as long as the map meets no violation, and the table then holds the map's
  -- records; they end the path at the first violation. For kmalloc and kstrdup, the flags GFP_KERNEL
  -- are a violation where the context must not sleep, and GFP_ATOMIC where it need not be atomic;
  -- other flags, and the flags of the other allocators, are not looked at. An object that is known
  -- already, an insane size, an empty origin and a name that is too long are a violation of an
  -- allocation; and of a free, an object that is not known or has no such origin.
  pub checked_calls-implement :
      (calls : List KernelCall) (f : Framework T)
      → f.global_lock_acquired ≡ 0
      → kernel_blocking_state f.global_state ≡ ok (context, f.global_state)
      → AgreesWith
          (checked_calls at calls f)
          (spec_calls context calls (some (tracked f.global_state)))
  unfolding checked_calls
  checked_calls-implement [] f free now = refl
  checked_calls-implement (c ∷ calls) f free now =
      rw (checked-meaning at placed context f free now c) (
        fitting (flags_fit context (mem_flags_of c)) (event_of c)
          (λ t. checked_calls-implement calls t))
    where
      Onward : Type 0
      Onward =
          (t : Framework T)
          → t.global_lock_acquired ≡ 0
          → kernel_blocking_state t.global_state ≡ ok (context, t.global_state)
          → AgreesWith (checked_calls at calls t)
              (spec_calls context calls (some (tracked t.global_state)))

      stepped :
          (e : Event) (r : Result {0} (Unit {0} × GlobalState T)) (o : Option {0} Records)
          → step e f.global_state ≡ r
          → Agrees r o
          → Onward
          → AgreesWith
              (continue
                (rejoin (λ g f'. record f' { global_state = g }) f r)
                (λ _. checked_calls at calls))
              (spec_calls context calls o)
      stepped e (ok (u, t)) (some m) ran agrees ih =
          subst
            (λ m'.
              AgreesWith (checked_calls at calls (record f { global_state = t }))
                (spec_calls context calls (some m')))
            agrees
            (ih (record f { global_state = t }) free
              (same_context e f.global_state t context ran now))
      stepped e (ok (u, t)) none ran agrees ih = absurd agrees
      stepped e (stop why) (some m) ran agrees ih = absurd agrees
      stepped e (stop why) none ran agrees ih = spec_calls-none calls why

      fitting :
          (fit : Bool) (o : Option {0} Event)
          → Onward
          → AgreesWith
              (continue
                (if fit then meaning at placed context f free now o else stop assertion)
                (λ _. checked_calls at calls))
              (spec_calls context calls
                (if fit then spec_event context o (tracked f.global_state) else none))
      fitting false o ih = spec_calls-none calls assertion
      fitting true none ih = ih f free now
      fitting true (some e) ih =
          stepped e (step e f.global_state) (spec_step e (tracked f.global_state)) refl
            (step-Agrees memory e f.global_state) ih
