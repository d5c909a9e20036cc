-- ===== src/Irq/Counted.antt =====
-- The number of requests of gtf/misc_checks/irq.c against its table, over any operation.
use driver_optimizer.Prelude.{
  subst, leb, leb→le, ◌≢◌, ℕ, suc, ◌+◌, ◌-◌, ◌≡◌, refl, ap, Bool, true, false, none, some, List,
  ◌==◌, if◌then◌else◌, ℤ, pos, arith, All, sym, ◌==ℤ◌,
}
use driver_optimizer.Action.{ok, stop, ◌>>=◌, ◌>>◌, Result, Action, continue, pure, tfassert}
use driver_optimizer.Framework.{IrqStruct, IrqState}
use driver_optimizer.Irq.{
  requested, request_in, free_in, request_threaded_irq, free_irq, store_entries, switch_in,
  enable_irq, disable_interrupt,
}
use driver_optimizer.Irq.Requests.{IsSlot, in_use}
use driver_optimizer.Irq.Loops.{
  Entries, Leaves, request_in-Leaves, free_in-Leaves, switch_in-Leaves,
}

-- The calls that a driver makes of the kernel, as the framework sees them.
pub data Operation : Type 0 where
  request : ℤ → ℕ → ℕ → ℕ → ℕ → List ℕ → ℕ → Operation
  give_back : ℤ → ℕ → ℕ → Operation
  enable : ℤ → ℕ → Operation
  disable : ℤ → ℕ → Operation

abbrev pub run : Operation → Action IrqState Unit
run (request prepost retval irq handler flags dev_name dev_id) =
    request_threaded_irq prepost retval irq handler flags dev_name dev_id
run (give_back prepost irq dev_id) = free_irq prepost irq dev_id
run (enable prepost irq) = enable_irq prepost irq
run (disable prepost irq) = disable_interrupt prepost irq

-- Every entry is in use or empty, and the counter tells how many are in use.
pub record IsCounted (s : IrqState) : Type 0 where
  pub slots : All IsSlot s.sym_irq
  pub counted : in_use s.sym_irq ≡ s.sym_num_requests

-- What is stored after the loop.
store-IsCounted :
    (s u : IrqState) (less count : ℕ) (r : Result {0} (Entries × IrqState))
    (rest : Entries → Action IrqState Unit)
    → ((w : IrqState) → rest none w ≢ ok (tt, u))
    → ((entries : List IrqStruct) (w : IrqState)
        → rest (some entries) w ≡ ok (tt, u)
        → u ≡ record w { sym_irq = entries })
    → Leaves s less count r
    → less + s.sym_num_requests ≡ count
    → continue r rest ≡ ok (tt, u)
    → IsCounted u
store-IsCounted s u less count (stop x) rest missing stored l total e = absurd cc
store-IsCounted s u less count (ok (none, w)) rest missing stored l total e = absurd (missing w e)
store-IsCounted s u less count (ok (some entries, w)) rest missing stored (at, table) total e =
    subst IsCounted (sym (stored entries w e)) (record {
      slots = table.slots;
      counted = let c = table.counted in let n = ap (λ v. v.sym_num_requests) at in ground arith;
    })

store_entries-eq :
    (u : IrqState) (entries : List IrqStruct) (w : IrqState)
    → store_entries (some entries) w ≡ ok (tt, u)
    → u ≡ record w { sym_irq = entries }
store_entries-eq u entries w e = cc

switch-IsCounted :
    (old new irq : ℕ) (s t : IrqState)
    → IsCounted s
    → (switch_in old new irq s.sym_irq >>= store_entries) s ≡ ok (tt, t)
    → IsCounted t
switch-IsCounted old new irq s t c =
    store-IsCounted s t 0 (in_use s.sym_irq) _ store_entries (λ w e. cc) (store_entries-eq t)
      (switch_in-Leaves s old new irq s.sym_irq c.slots) (let n = c.counted in omega arith)

-- What an assertion that was passed tells.
tfassert-passed :
    (b : Bool) (m : Action IrqState Unit) (s t : IrqState)
    → (tfassert b >> m) s ≡ ok (tt, t)
    → (b ≡ true) × (m s ≡ ok (tt, t))
tfassert-passed true m s t e = (refl, e)
tfassert-passed false m s t e = absurd cc

store_entries-tfassert :
    (b : Bool) (u : IrqState) (entries : List IrqStruct) (w : IrqState)
    → (store_entries (some entries) >> tfassert b) w ≡ ok (tt, u)
    → u ≡ record w { sym_irq = entries }
store_entries-tfassert true u entries w e = cc
store_entries-tfassert false u entries w e = absurd cc

request-IsCounted :
    (new : IrqStruct) (b : Bool) (s t : IrqState)
    → new.allocated ≡ 1
    → IsCounted s
    → (request_in new s.sym_irq >>= λ found. store_entries found >> tfassert b)
        (record s { sym_num_requests = s.sym_num_requests + 1 })
      ≡ ok (tt, t)
    → IsCounted t
request-IsCounted new b s t fresh c =
    store-IsCounted (record s { sym_num_requests = s.sym_num_requests + 1 }) t 0
      (suc (in_use s.sym_irq)) _ (λ found. store_entries found >> tfassert b) (λ w e. cc)
      (store_entries-tfassert b t) (request_in-Leaves _ new s.sym_irq fresh c.slots)
      (let n = c.counted in omega arith)

free-IsCounted :
    (irq dev_id : ℕ) (s t : IrqState)
    → IsCounted s
    → leb 1 s.sym_num_requests ≡ true
    → (free_in s.sym_irq_ongoing irq dev_id s.sym_irq >>= store_entries)
        (record s { sym_num_requests = s.sym_num_requests - 1 })
      ≡ ok (tt, t)
    → IsCounted t
free-IsCounted irq dev_id s t c some_left =
    store-IsCounted (record s { sym_num_requests = s.sym_num_requests - 1 }) t 1 (in_use s.sym_irq)
      _ store_entries (λ w e. cc) (store_entries-eq t)
      (free_in-Leaves _ s.sym_irq_ongoing irq dev_id s.sym_irq c.slots)
      (let n = c.counted in let m = leb→le _ _ some_left in omega arith)

-- An operation that does nothing on one side of the call.
if-IsCounted :
    (b : Bool) (m : Action IrqState Unit) (s t : IrqState)
    → IsCounted s
    → (m s ≡ ok (tt, t) → IsCounted t)
    → (if b then m else pure tt) s ≡ ok (tt, t)
    → IsCounted t
if-IsCounted true m s t c f e = f e
if-IsCounted false m s t c f e = subst IsCounted (ground arith) c

-- Whatever the driver asks for, in whatever order, granted or refused, seen before or after the call:
-- where the counter tells how many entries of the table are in use, and each entry is in use or
-- empty, that is so after every operation that returns.
pub run-IsCounted :
    (o : Operation) (s t : IrqState) → IsCounted s → run o s ≡ ok (tt, t) → IsCounted t
unfolding request_threaded_irq free_irq enable_irq disable_interrupt
run-IsCounted (request prepost retval irq handler flags dev_name dev_id) s t c =
    if-IsCounted (prepost ==ℤ pos 1) _ s t c (
      if-IsCounted (retval == 0) _ s t c
        (request-IsCounted (requested irq handler flags dev_name dev_id) _ s t refl c))
run-IsCounted (give_back prepost irq dev_id) s t c = if-IsCounted (prepost ==ℤ pos 0) _ s t c (λ e.
    let passed = tfassert-passed _ _ _ t e in free-IsCounted irq dev_id s t c passed.0 passed.1)
run-IsCounted (enable prepost irq) s t c =
    if-IsCounted (prepost ==ℤ pos 1) _ s t c (switch-IsCounted 0 1 irq s t c)
run-IsCounted (disable prepost irq) s t c =
    if-IsCounted (prepost ==ℤ pos 1) _ s t c (switch-IsCounted 1 0 irq s t c)
