-- ===== src/Irq.antt =====
-- The interrupt requests of a driver, gtf/misc_checks/irq.c, with LINUX_MODE. The lock of the
-- framework is taken around each check routine; `fn` and the names that are printed are left out.
pub mod Handlers
pub mod Requests
pub mod Loops
pub mod Counted
pub mod Calls
pub mod Rate
pub mod Masked
pub mod Routines
use driver_optimizer.Prelude.{
  ℕ, zero, suc, ◌+◌, ◌-◌, ◌%◌, Bool, true, false, not, ◌&&◌, ◌||◌, Option, none, some, List, [],
  ◌∷◌, length, set, replicate, ltb, leb, ◌==◌, is_none, if◌then◌else◌, ℤ, pos, ◌==ℤ◌,
}
use driver_optimizer.Action.{
  Action, assertion, out_of_bounds, null_dereference, ◌>>=◌, ◌>>◌, pure, halt, get, put, modify,
  tfassert, the, read_at, write_at,
}
use driver_optimizer.State.{call_is, class_is, called_ok, driver_net, blocking_no, user_yes}
use driver_optimizer.KernelState.{
  push_blocking_state, push_user_state, pop_blocking_state, pop_user_state,
  can_call_interrupt_handlers,
}
use driver_optimizer.DriverState.{get_driver_class}
use driver_optimizer.Framework.{
  IrqStruct, IrqState, Framework, on_global_state, on_drivers, on_irqs, check_routine,
}

-- #define MAX_IRQ_LINES 200000, MAX_INTERRUPTS_PER_LINE 5, MAX_IRQS 16
abbrev pub max_irq_lines : ℕ
max_irq_lines = 200000

abbrev pub max_interrupts_per_line : ℕ
max_interrupts_per_line = 5

abbrev pub max_irqs : ℕ
max_irqs = 16

-- the size of irq_struct.name
abbrev pub name_size : ℕ
name_size = 128

-- reset_one: the entry is emptied.
abbrev pub reset_one : IrqStruct
reset_one = record {
  allocated = 0;
  number = 0;
  handler = 0;
  parameter = 0;
  flags = 0;
  name = [];
  enabled = 0;
}

-- The entry that request_irq fills in.
abbrev pub requested : ℕ → ℕ → ℕ → List ℕ → ℕ → IrqStruct
requested irq handler flags dev_name dev_id = record {
  allocated = 1;
  number = irq;
  handler = handler;
  parameter = dev_id;
  flags = flags;
  name = dev_name;
  enabled = 1;
}

-- sym_irq[i].allocated == 1 && sym_irq[i].number == irq
abbrev pub is_irq : ℕ → IrqStruct → Bool
is_irq irq entry = entry.allocated == 1 && entry.number == irq

-- sym_irq_lines = NULL or an allocated table, set to 0
unfoldable pub reset_state : Action IrqState Unit
reset_state = do
  s ← get
  lines ← the assertion s.sym_irq_lines
  put (record s {
    sym_irq = replicate max_irqs reset_one;
    sym_irq_ongoing = 0;
    sym_irq_lines = some (replicate max_irq_lines 0);
    sym_num_requests = 0;
  })

-- `lines` is what the allocator returned.
unfoldable pub initialize_irqs : Option (List ℕ) → Action IrqState Unit
unfolding reset_state
initialize_irqs lines = do
  modify (λ s. record s { sym_irq_lines = lines })
  tfassert (not (is_none lines))
  reset_state

unfoldable pub free_irqs : Action IrqState Unit
unfolding reset_state
free_irqs = do reset_state; modify (λ s. record s { sym_irq_lines = none })

unfoldable pub is_irq_allocated : Action IrqState ℕ
is_irq_allocated = do s ← get; if ltb 0 s.sym_num_requests then pure 1 else pure 0

-- the entry that a loop has passed, before the changed rest of the array
abbrev pub after : IrqStruct → Option (List IrqStruct) → Option (List IrqStruct)
after entry none = none
after entry (some entries) = some (entry ∷ entries)

-- The loops over sym_irq: the changed array, or nothing where the index reaches MAX_IRQS.
module _ {S : Type 0} where
  unfoldable pub request_in : IrqStruct → List IrqStruct → Action S (Option (List IrqStruct))
  request_in new [] = pure none
  request_in new (entry ∷ entries) =
      let rest = request_in new entries in
      if entry.allocated == 1
      then (rest >>= λ found. pure (after entry found))
      else (tfassert (entry.allocated == 0)
          >> (if ltb (length new.name) name_size
              then pure (some (new ∷ entries))
              else halt out_of_bounds))

  unfoldable pub free_in : ℕ → ℕ → ℕ → List IrqStruct → Action S (Option (List IrqStruct))
  free_in sym_irq_ongoing irq dev_id [] = pure none
  free_in sym_irq_ongoing irq dev_id (entry ∷ entries) =
      let rest = free_in sym_irq_ongoing irq dev_id entries in
      if is_irq irq entry
      then (tfassert (sym_irq_ongoing == 0)
          >> (tfassert (dev_id == entry.parameter) >> pure (some (reset_one ∷ entries))))
      else (rest >>= λ found. pure (after entry found))

  -- enable_irq and disable_irq: the entry's flag is `old`, and becomes `new`
  unfoldable pub switch_in : ℕ → ℕ → ℕ → List IrqStruct → Action S (Option (List IrqStruct))
  switch_in old new irq [] = pure none
  switch_in old new irq (entry ∷ entries) =
      let rest = switch_in old new irq entries in
      if is_irq irq entry
      then (tfassert (entry.enabled == old)
          >> pure (some (record entry { enabled = new } ∷ entries)))
      else (rest >>= λ found. pure (after entry found))

-- The array after the loop, where the test that the index is below MAX_IRQS holds.
abbrev pub store_entries : Option (List IrqStruct) → Action IrqState Unit
store_entries found = do
  entries ← the assertion found
  s ← get
  put (record s { sym_irq = entries })

-- The postcondition of a request. The precondition tests the two pointers, which C has read by then.
unfoldable pub request_threaded_irq : ℤ → ℕ → ℕ → ℕ → ℕ → List ℕ → ℕ → Action IrqState Unit
unfolding request_in
request_threaded_irq prepost retval irq handler flags dev_name dev_id =
    if prepost ==ℤ pos 1
    then (if retval == 0
        then (do
          modify (λ s. record s { sym_num_requests = s.sym_num_requests + 1 })
          s ← get
          found ← request_in (requested irq handler flags dev_name dev_id) s.sym_irq
          store_entries found
          tfassert (not (is_none s.sym_irq_lines)))
        else pure tt)
    else pure tt

unfoldable pub free_irq : ℤ → ℕ → ℕ → Action IrqState Unit
unfolding free_in
free_irq prepost irq dev_id =
    if prepost ==ℤ pos 0
    then (do
      s ← get
      tfassert (leb 1 s.sym_num_requests)
      put (record s { sym_num_requests = s.sym_num_requests - 1 })
      found ← free_in s.sym_irq_ongoing irq dev_id s.sym_irq
      store_entries found)
    else pure tt

unfoldable pub enable_irq : ℤ → ℕ → Action IrqState Unit
unfolding switch_in
enable_irq prepost irq =
    if prepost ==ℤ pos 1
    then (do s ← get; found ← switch_in 0 1 irq s.sym_irq; store_entries found)
    else pure tt

unfoldable pub disable_interrupt : ℤ → ℕ → Action IrqState Unit
unfolding switch_in
disable_interrupt prepost irq =
    if prepost ==ℤ pos 1
    then (do s ← get; found ← switch_in 1 0 irq s.sym_irq; store_entries found)
    else pure tt
