-- ===== src/Checks/Uses.antt =====
-- The checks of calls that use an object of the driver, gtf/misc_checks/main.c.
use driver_optimizer.Prelude.{ℕ, bit_or, ℤ}
use driver_optimizer.Action.{Action, pure, tfassert, ◌>>=◌, ◌>>◌}
use driver_optimizer.Hashtable.{Hashtable}
use driver_optimizer.State.{
  HValue, Kernel, may_block, origin_kmalloc, origin_alloc_urb, origin_dev_alloc_skb,
}
use driver_optimizer.KernelState.{kernel_blocking_state, mem_flags_test}
use driver_optimizer.ObjectTracker.{assert_allocated, assert_allocated_weak}
use driver_optimizer.Framework.{Framework, on_global_state, check_routine}
use driver_optimizer.Checks.{sides}

module _ {T : Type 0} ⦃h : Hashtable T HValue⦄ where
  unfoldable pub usb_control_msg_check : ℤ → ℕ → Action (Framework T) Unit
  unfolding check_routine kernel_blocking_state assert_allocated
  usb_control_msg_check prepost data' = check_routine (
      on_global_state (
        sides prepost
          (do
            context ← kernel_blocking_state
            tfassert (may_block context)
            assert_allocated (bit_or origin_kmalloc (bit_or origin_alloc_urb origin_dev_alloc_skb))
                data')
          (pure tt)))

  -- `transfer_buffer` is (*urb)->transfer_buffer, read once the urb is known to be allocated.
  unfoldable pub usb_submit_urb_check : ⦃k : Kernel⦄ → ℤ → ℕ → ℕ → ℕ → Action (Framework T) Unit
  unfolding check_routine mem_flags_test assert_allocated
  usb_submit_urb_check ⦃k⦄ prepost urb transfer_buffer mem_flags = check_routine (
      on_global_state (
        sides prepost
          (do
            mem_flags_test k.gfp_atomic k.gfp_kernel mem_flags
            assert_allocated (bit_or origin_kmalloc origin_alloc_urb) urb
            assert_allocated (bit_or origin_kmalloc origin_dev_alloc_skb) transfer_buffer)
          (pure tt)))

  unfoldable pub copy_from_user_check : ℕ → ℕ → Action (Framework T) Unit
  unfolding check_routine assert_allocated_weak
  copy_from_user_check to n = check_routine (on_global_state (assert_allocated_weak to n))
