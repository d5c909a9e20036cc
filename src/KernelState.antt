-- ===== src/KernelState.antt =====
-- Which calls the kernel allows now: the two stacks of contexts of gtf/test_state.c, pushed when an
-- entry point or a lock is entered and popped when it is left. The argument `fn` of these functions
-- is printed only, and is left out; their tests that an index is not negative hold of a number.
pub mod Stack
pub mod Nesting
use driver_optimizer.Prelude.{ℕ, ◌+◌, ◌-◌, ltb, ◌==◌, set, if◌then◌else◌}
use driver_optimizer.Action.{Action, ◌>>=◌, ◌>>◌, pure, get, put, tfassert, read_at, write_at}
use driver_optimizer.State.{
  BlockingContext, blocking_undefined, blocking_yes, blocking_no, UserContext, GlobalState,
  max_nesting, may_block, may_be_atomic,
}

-- the switch of can_call_interrupt_handlers
abbrev pub interrupts_in : BlockingContext → ℕ
interrupts_in blocking_yes = 1
interrupts_in blocking_undefined = 1
interrupts_in blocking_no = 0

module _ {T : Type 0} where
  unfoldable pub set_blocking_state : BlockingContext → Action (GlobalState T) Unit
  set_blocking_state context = do
    s ← get
    contexts ← write_at s.blocking_context 0 context
    put (record s { blocking_context_current = 0; blocking_context = contexts })

  -- The slot is written before the test of the new index.
  unfoldable pub push_blocking_state : BlockingContext → Action (GlobalState T) Unit
  push_blocking_state context = do
    s ← get
    let current = s.blocking_context_current + 1
    contexts ← write_at s.blocking_context current context
    put (record s { blocking_context_current = current; blocking_context = contexts })
    tfassert (ltb current max_nesting)

  unfoldable pub pop_blocking_state : Action (GlobalState T) Unit
  pop_blocking_state = do
    s ← get
    tfassert (ltb 0 s.blocking_context_current)
    put (record s { blocking_context_current = s.blocking_context_current - 1 })

  unfoldable pub kernel_blocking_state : Action (GlobalState T) BlockingContext
  kernel_blocking_state = do s ← get; read_at s.blocking_context s.blocking_context_current

  unfoldable pub set_user_state : UserContext → Action (GlobalState T) Unit
  set_user_state context = do
    s ← get
    contexts ← write_at s.user_context 0 context
    put (record s { user_context_current = 0; user_context = contexts })

  unfoldable pub push_user_state : UserContext → Action (GlobalState T) Unit
  push_user_state context = do
    s ← get
    let current = s.user_context_current + 1
    contexts ← write_at s.user_context current context
    put (record s { user_context_current = current; user_context = contexts })
    tfassert (ltb current max_nesting)

  unfoldable pub pop_user_state : Action (GlobalState T) Unit
  pop_user_state = do
    s ← get
    tfassert (ltb 0 s.user_context_current)
    put (record s { user_context_current = s.user_context_current - 1 })

  unfoldable pub kernel_user_state : Action (GlobalState T) UserContext
  kernel_user_state = do s ← get; read_at s.user_context s.user_context_current

  unfoldable pub push_kernel_state : BlockingContext → UserContext → Action (GlobalState T) Unit
  push_kernel_state blocking user = do push_blocking_state blocking; push_user_state user

  unfoldable pub pop_kernel_state : Action (GlobalState T) Unit
  pop_kernel_state = do pop_blocking_state; pop_user_state

  -- returns the old value
  unfoldable pub set_device_interrupts : ℕ → Action (GlobalState T) ℕ
  set_device_interrupts disabled = do
    s ← get
    put (record s { device_irq_disabled = disabled })
    pure s.device_irq_disabled

  unfoldable pub can_call_interrupt_handlers : Action (GlobalState T) ℕ
  can_call_interrupt_handlers = do
    s ← get
    if s.device_irq_disabled == 1 then pure 0 else do
      context ← read_at s.blocking_context s.blocking_context_current
      pure (interrupts_in context)

  -- mem_flags_test: an allocation's flags against the context, with no DISABLE_ macro defined
  unfoldable pub mem_flags_test : ℕ → ℕ → ℕ → Action (GlobalState T) Unit
  mem_flags_test flags_blocking_no flags_blocking_yes mem_flags =
      if mem_flags == flags_blocking_yes
      then (do context ← kernel_blocking_state; tfassert (may_block context))
      else if mem_flags == flags_blocking_no
      then (do context ← kernel_blocking_state; tfassert (may_be_atomic context))
      else pure tt
