-- ===== src/Irq/Calls.antt =====
-- When the framework calls an interrupt handler from one line, gtf/misc_checks/irq.c.
use driver_optimizer.Prelude.{
  ℕ, ◌+◌, ◌%◌, ◌≤◌, ◌≡◌, refl, ap, ◌∙◌, length-set, set-set, some, List, set, get_elem?, ltb, ◌==◌,
  if◌then◌else◌, arith, not, ◌&&◌, length, ◌<◌,
}
use driver_optimizer.Action.{Action, ok}
use driver_optimizer.Framework.{Framework, IrqStruct, IrqState}
use driver_optimizer.Irq.Handlers.{call_one, count_call, store_count}

-- what a turn makes of a line's counter
abbrev pub next_count : ℕ → ℕ
next_count count = if ltb count 100 then count + 1 else 4

byte : (count : ℕ) → count ≤ 100 → (count + 1) % 256 ≡ count + 1
byte count bound = ground arith

module _ (s : IrqState) (lines : List ℕ) (line : ℕ) (known : s.sym_irq_lines ≡ some lines)
    (inside : line < length lines) where
  count_call_lem :
      (count : ℕ)
      → get_elem? lines line ≡ some count
      → count ≤ 100
      → count_call line s
        ≡ ok (count + 1, record s { sym_irq_lines = some (set lines line (count + 1)) })
  unfolding count_call
  count_call_lem count counter bound = let m = byte count bound in ground arith

  store_count_lem :
      (n : ℕ) → store_count line n s ≡ ok (tt, record s { sym_irq_lines = some (set lines line n) })
  unfolding store_count
  store_count_lem n = ground arith

-- the counter written twice
store_after :
    (s : IrqState) (lines : List ℕ) (line a n : ℕ)
    → line < length lines
    → store_count line n (record s { sym_irq_lines = some (set lines line a) })
      ≡ ok (tt, record s { sym_irq_lines = some (set lines line n) })
store_after s lines line a n inside =
    store_count_lem (record s { sym_irq_lines = some (set lines line a) }) (set lines line a) line
      refl (rw (length-set lines line a) inside) n
    ∙ ap (λ ls. ok (tt, record s { sym_irq_lines = some ls })) (set-set lines line a n)

module _ {T : Type 0} (f : Framework T) (lines : List ℕ) (line : ℕ) where
  -- the state with the line's counter changed
  abbrev pub with_count : ℕ → Framework T
  with_count n = record f { irqs = record f.irqs { sym_irq_lines = some (set lines line n) } }

module _ {T : Type 0} (handler : ℕ → ℕ → ℕ → Action (Framework T) Unit) (f : Framework T)
    (lines : List ℕ) (line count : ℕ) (entry : IrqStruct) where
  -- One turn of the loop, for one request, from a line whose counter is at most 100: if the request
  -- is in use and enabled, the counter of the line, which all requests share, goes up by one, but
  -- from 100 it goes to 4 (so that the turn after may call again), and the handler is called exactly
  -- if the counter was below 5. A request that is not in use or not enabled is passed over. The
  -- counter that is stored is at most 100 again, so the byte never overflows.
  pub call_one_lem :
      f.irqs.sym_irq_lines ≡ some lines
      → get_elem? lines line ≡ some count
      → line < length lines
      → count ≤ 100
      → (call_one handler line entry f ≡ (
          if not (entry.allocated == 0) && entry.enabled == 1
          then (if ltb count 5
              then handler entry.handler entry.number entry.parameter
                  (with_count f lines line (next_count count))
              else ok (tt, with_count f lines line (next_count count)))
          else ok (tt, f)))
        × (next_count count ≤ 100)
  unfolding call_one
  call_one_lem known counter inside bound =
      let counted = count_call_lem f.irqs lines line known inside count counter bound in
      let low = store_after f.irqs lines line (count + 1) 4 inside in
      let same = store_after f.irqs lines line (count + 1) (count + 1) inside in
      (ground arith, ground arith)
