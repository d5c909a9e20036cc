-- ===== src/Irq/Rate.antt =====
-- How often a handler is called from one line of the framework in the long run,
-- gtf/misc_checks/irq.c.
use driver_optimizer.Prelude.{
  ℕ, zero, suc, ◌+◌, ◌-◌, ◌*◌, ◌≤◌, ◌<◌, ◌≡◌, refl, ◌∙◌, true, false, some, List, set, length, ltb,
  ◌==◌, if◌then◌else◌, arith, inl, inr, Bool-cases, length-set, set-set, get_elem?-set_self,
}
use driver_optimizer.Action.{Action, ok, pure, modify, ◌>>◌}
use driver_optimizer.State.{GlobalState}
use driver_optimizer.Framework.{Framework, IrqStruct, on_global_state}
use driver_optimizer.Irq.Handlers.{call_one}
use driver_optimizer.Irq.Calls.{call_one_lem, next_count}

-- the counter after some turns, and how many of them call the handler
pub counter_after : ℕ → ℕ → ℕ
counter_after zero count = count
counter_after (suc n) count = counter_after n (next_count count)

pub calls_in : ℕ → ℕ → ℕ
calls_in zero count = 0
calls_in (suc n) count =
    let rest = calls_in n (next_count count) in if ltb count 5 then suc rest else rest

-- a function applied some times
pub times : {A : Type 0} → ℕ → (A → A) → A → A
times zero g a = a
times (suc n) g a = times n g (g a)

-- what is left of the calls that a counter allows at once, in turns
abbrev allowance : ℕ → ℕ
allowance count = if ltb count 5 then 96 * (5 - count) else count - 5

rate : (n count : ℕ) → count ≤ 100 → 97 * calls_in n count ≤ n + allowance count
unfolding calls_in
rate zero count bound = omega arith
rate (suc n) count bound = let rest = rate n (next_count count) (ground arith) in ground arith

next_bound : (count : ℕ) → count ≤ 100 → next_count count ≤ 100
next_bound count bound = ground arith

counter_bound : (n count : ℕ) → count ≤ 100 → counter_after n count ≤ 100
unfolding counter_after
counter_bound zero count bound = bound
counter_bound (suc n) count bound = counter_bound n (next_count count) (next_bound count bound)

module _ {T : Type 0} (handler : ℕ → ℕ → ℕ → Action (Framework T) Unit) (line : ℕ)
    (entry : IrqStruct) where
  -- the loop comes to the request some times, from the same line
  pub turns : ℕ → Action (Framework T) Unit
  turns zero = pure tt
  turns (suc n) = do call_one handler line entry; turns n

module _ {T : Type 0} (effect : GlobalState T → GlobalState T) (f : Framework T) (lines : List ℕ)
    (line : ℕ) (entry : IrqStruct) (inside : line < length lines)
    (in_use : (entry.allocated == 0) ≡ false) (enabled : (entry.enabled == 1) ≡ true) where
  -- a handler that changes the global state alone
  abbrev pub quiet : ℕ → ℕ → ℕ → Action (Framework T) Unit
  quiet handler number parameter = on_global_state (modify effect)

  -- a counter and a global state
  abbrev pub at : ℕ → GlobalState T → Framework T
  at count g = record f {
    global_state = g;
    irqs = record f.irqs { sym_irq_lines = some (set lines line count) };
  }

  one_turn :
      (count : ℕ) (g : GlobalState T)
      → count ≤ 100
      → call_one quiet line entry (at count g)
        ≡ ok (tt, at (next_count count) (if ltb count 5 then effect g else g))
  one_turn count g bound =
      let turn =
        call_one_lem quiet (at count g) (set lines line count) line count entry refl
          (get_elem?-set_self lines line count inside) (rw (length-set lines line count) inside)
          bound in
      (turn).0
      ∙ rw (in_use, enabled, set-set lines line count (next_count count))
          (elim (Bool-cases (ltb count 5)) [ inl low ↦ rw low refl | inr high ↦ rw high refl ])

  turns_from :
      (n count : ℕ) (g : GlobalState T)
      → count ≤ 100
      → turns quiet line entry n (at count g)
        ≡ ok (tt, at (counter_after n count) (times (calls_in n count) effect g))
  unfolding turns counter_after calls_in times
  turns_from zero count g bound = refl
  turns_from (suc n) count g bound =
      let next = next_bound count bound in
      let one = one_turn count g bound in
      elim (Bool-cases (ltb count 5)) [
        | inl low ↦ rw (one, low, turns_from n (next_count count) (effect g) next) refl
        | inr high ↦ rw (one, high, turns_from n (next_count count) g next) refl
      ]

  -- From one line of the framework, a handler is called at most five times in the first 101 turns of
  -- the loop and then at most once more for every 97 turns begun. For a request that is in use and
  -- enabled, a handler that changes the global state alone, and a line whose counter is 0, any number
  -- of turns return, and the effect of the handler has been applied some number of times: 97 times
  -- that number is at most the number of turns and 480. The counter is then at most 100, so its byte
  -- has not overflowed.
  pub turns_lem :
      (n : ℕ)
      → (turns quiet line entry n (at 0 f.global_state)
          ≡ ok (tt, at (counter_after n 0) (times (calls_in n 0) effect f.global_state)))
        × (97 * calls_in n 0 ≤ n + 480)
        × (counter_after n 0 ≤ 100)
  turns_lem n = (
    turns_from n 0 f.global_state (omega arith),
    rate n 0 (omega arith),
    counter_bound n 0 (omega arith),
  )
