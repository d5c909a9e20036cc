-- ===== src/Irq/Handlers.antt =====
-- The entry point of an interrupt handler, and the calls of the handlers that the framework makes,
-- gtf/misc_checks/irq.c. The driver's handlers are a parameter: a handler is called by its address
-- with the number and the parameter of its request, and may change the whole state.
use driver_optimizer.Prelude.{
  ℕ, zero, suc, ◌+◌, ◌-◌, ◌%◌, false, ◌&&◌, some, ltb, leb, ◌==◌, if◌then◌else◌, ℤ, pos, ◌==ℤ◌,
}
use driver_optimizer.Action.{
  Action, null_dereference, ◌>>=◌, ◌>>◌, pure, get, put, modify, tfassert, the, read_at, write_at,
}
use driver_optimizer.State.{call_is, class_is, called_ok, driver_net, blocking_no, user_yes}
use driver_optimizer.KernelState.{
  push_blocking_state, push_user_state, pop_blocking_state, pop_user_state,
  can_call_interrupt_handlers,
}
use driver_optimizer.DriverState.{get_driver_class}
use driver_optimizer.Framework.{
  IrqStruct, IrqState, Framework, on_global_state, on_drivers, on_irqs,
}
use driver_optimizer.Irq.{max_irq_lines, max_interrupts_per_line, max_irqs}

module _ {T : Type 0} where
  -- The postcondition where g_sym_force_receive is 1: the two calls that change the priority of the
  -- path in S2E leave the state alone. The class is read, and with it tested, on each branch.
  unfoldable pub force_receive : Action (Framework T) Unit
  unfolding get_driver_class
  force_receive = do
    f ← get
    class ← on_drivers get_driver_class
    let ndo = f.drivers.ndo_driver_state
    if f.irqs.called_before == 0 && class_is class driver_net && call_is ndo.opened called_ok
        then on_irqs (modify (λ s. record s { called_before = 1 }))
        else pure tt

  unfoldable pub interrupt_handler : ℤ → ℤ → Action (Framework T) Unit
  unfolding force_receive push_blocking_state push_user_state pop_blocking_state pop_user_state
  interrupt_handler g_sym_force_receive prepost =
      if prepost ==ℤ pos 0
      then (do
        on_global_state (push_blocking_state blocking_no)
        on_global_state (push_user_state user_yes))
      else if prepost ==ℤ pos 1
      then (do
        on_global_state pop_blocking_state
        on_global_state pop_user_state
        if g_sym_force_receive ==ℤ pos 1 then force_receive else pure tt)
      else tfassert false

-- The count after a refused call of a handler, reset where it is over 100.
abbrev pub refused : ℕ → ℕ
refused count = if ltb 100 count then max_interrupts_per_line - 1 else count

-- `sym_irq_lines[LINE]++` on an unsigned char: the new count, which is stored
unfoldable pub count_call : ℕ → Action IrqState ℕ
count_call line = do
  s ← get
  lines ← the null_dereference s.sym_irq_lines
  count ← read_at lines line
  let count' = (count + 1) % 256
  lines' ← write_at lines line count'
  put (record s { sym_irq_lines = some lines' })
  pure count'

-- sym_irq_lines[LINE] = count
unfoldable pub store_count : ℕ → ℕ → Action IrqState Unit
store_count line count = do
  s ← get
  lines ← the null_dereference s.sym_irq_lines
  lines' ← write_at lines line count
  put (record s { sym_irq_lines = some lines' })

module _ {T : Type 0} (handler : ℕ → ℕ → ℕ → Action (Framework T) Unit) where
  -- what the loop does with one entry
  unfoldable pub call_one : ℕ → IrqStruct → Action (Framework T) Unit
  unfolding count_call store_count
  call_one line entry =
      if entry.allocated == 0
      then pure tt
      else if entry.enabled == 1
      then (do
        count ← on_irqs (count_call line)
        if leb count max_interrupts_per_line
            then handler entry.handler entry.number entry.parameter
            else on_irqs (store_count line (refused count)))
      else pure tt

  -- The loop, with the number of entries that are left: a handler may change those.
  unfoldable pub call_from : ℕ → ℕ → Action (Framework T) Unit
  unfolding call_one
  call_from line zero = pure tt
  call_from line (suc left) = do
    f ← get
    entry ← read_at f.irqs.sym_irq (max_irqs - suc left)
    call_one line entry
    call_from line left

  unfoldable pub call_interrupt_handlers : ℕ → Action (Framework T) Unit
  unfolding call_from can_call_interrupt_handlers
  call_interrupt_handlers line = do
    f ← get
    if ltb 0 f.irqs.sym_irq_ongoing then pure tt else do
      can ← on_global_state can_call_interrupt_handlers
      if can == 0 then pure tt else do
        tfassert (ltb line max_irq_lines)
        on_irqs (modify (λ s. record s { sym_irq_ongoing = s.sym_irq_ongoing + 1 }))
        call_from line max_irqs
        on_irqs (modify (λ s. record s { sym_irq_ongoing = s.sym_irq_ongoing - 1 }))
