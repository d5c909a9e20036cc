-- ===== src/Irq/Masked.antt =====
-- In an interrupt handler of the driver the framework calls no other: gtf/misc_checks/irq.c with the
-- contexts of gtf/test_state.c.
use driver_optimizer.Prelude.{ℕ, ◌+◌, ◌≡◌, ℤ, pos, arith, get_elem?-set_self}
use driver_optimizer.Action.{Action, ok, ◌>>◌}
use driver_optimizer.State.{blocking_no, user_yes, GlobalState}
use driver_optimizer.KernelState.{push_blocking_state, push_user_state, can_call_interrupt_handlers}
use driver_optimizer.Framework.{Framework}
use driver_optimizer.Irq.Handlers.{interrupt_handler, call_interrupt_handlers}

module _ {T : Type 0} where
  pushed_masks :
      (s t : GlobalState T)
      → (push_blocking_state blocking_no >> push_user_state user_yes) s ≡ ok (tt, t)
      → can_call_interrupt_handlers t ≡ ok (0, t)
  unfolding push_blocking_state push_user_state can_call_interrupt_handlers
  pushed_masks s t e =
      let top =
        get_elem?-set_self s.blocking_context (s.blocking_context_current + 1) blocking_no in
      ground arith

  entered :
      (g_sym_force_receive : ℤ) (f t : Framework T)
      → interrupt_handler g_sym_force_receive (pos 0) f ≡ ok (tt, t)
      → (push_blocking_state blocking_no >> push_user_state user_yes) f.global_state
        ≡ ok (tt, t.global_state)
  unfolding interrupt_handler
  entered g_sym_force_receive f t e = ground arith

  same_contexts :
      (s t : GlobalState T)
      → can_call_interrupt_handlers s ≡ ok (0, s)
      → t.blocking_context ≡ s.blocking_context
      → t.blocking_context_current ≡ s.blocking_context_current
      → t.device_irq_disabled ≡ s.device_irq_disabled
      → can_call_interrupt_handlers t ≡ ok (0, t)
  unfolding can_call_interrupt_handlers
  same_contexts s t masked contexts current disabled = ground arith

  -- Once the driver's interrupt handler is entered, the framework calls no interrupt handler, wherever
  -- it is asked to: not in the state right after the entry, and not in any later state that has the
  -- same blocking contexts, with the same one on top, and the same interrupt switch.
  pub call-entered :
      (handler : ℕ → ℕ → ℕ → Action (Framework T) Unit) (g_sym_force_receive : ℤ) (line : ℕ)
      (f t later : Framework T)
      → interrupt_handler g_sym_force_receive (pos 0) f ≡ ok (tt, t)
      → later.global_state.blocking_context ≡ t.global_state.blocking_context
      → later.global_state.blocking_context_current ≡ t.global_state.blocking_context_current
      → later.global_state.device_irq_disabled ≡ t.global_state.device_irq_disabled
      → call_interrupt_handlers handler line later ≡ ok (tt, later)
  unfolding call_interrupt_handlers
  call-entered handler g_sym_force_receive line f t later e contexts current disabled =
      let masked = pushed_masks f.global_state t.global_state (entered g_sym_force_receive f t e) in
      let still =
        same_contexts t.global_state later.global_state masked contexts current disabled in
      ground arith
