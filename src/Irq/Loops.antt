-- ===== src/Irq/Loops.antt =====
-- The loops over the table of requests in gtf/misc_checks/irq.c: how many entries they leave in use.
use driver_optimizer.Prelude.{
  ℕ, suc, ◌+◌, ◌≡◌, refl, Bool, true, false, Option, none, some, List, [], ◌∷◌, length, ltb, ◌==◌,
  if◌then◌else◌, arith, All, inl, inr,
}
use driver_optimizer.Action.{
  ok, stop, out_of_bounds, ◌>>◌, Result, Action, continue, pure, tfassert, halt,
}
use driver_optimizer.Framework.{IrqStruct}
use driver_optimizer.Irq.{reset_one, is_irq, after, request_in, free_in, name_size, switch_in}
use driver_optimizer.Irq.Requests.{IsSlot, in_use}

abbrev pub Entries : Type 0
Entries = Option (List IrqStruct)

-- A table with entries as they may be; with `less` more in use there would be `count`.
pub record Table (less count : ℕ) (entries : List IrqStruct) : Type 0 where
  pub slots : All IsSlot entries
  pub counted : less + in_use entries ≡ count

-- A loop over the table that found its entry leaves the state and such a table.
abbrev pub Leaves : {S : Type 0} → S → ℕ → ℕ → Result {0} (Entries × S) → Type 0
Leaves s less count (stop x) = Unit
Leaves s less count (ok (none, t)) = Unit
Leaves s less count (ok (some entries, t)) = (t ≡ s) × Table less count entries

Table-cons :
    (less count count' : ℕ) (entry : IrqStruct) (entries : List IrqStruct)
    → IsSlot entry
    → Table less count entries
    → (if entry.allocated == 1 then suc count else count) ≡ count'
    → Table less count' (entry ∷ entries)
Table-cons less count count' entry entries slot table total = record {
  slots = (slot, table.slots);
  counted = let c = table.counted in ground arith;
}

Table-of : (entries : List IrqStruct) → All IsSlot entries → Table 0 (in_use entries) entries
Table-of entries slots = record { slots = slots; counted = omega arith }

module _ {S : Type 0} (s : S) (less : ℕ) where
  Leaves-after :
      (entry : IrqStruct) (count count' : ℕ) (r : Result {0} (Entries × S))
      → IsSlot entry
      → (if entry.allocated == 1 then suc count else count) ≡ count'
      → Leaves s less count r
      → Leaves s less count' (continue r (λ found. pure (after entry found)))
  Leaves-after entry count count' (stop x) slot total l = tt
  Leaves-after entry count count' (ok (none, t)) slot total l = tt
  Leaves-after entry count count' (ok (some entries, t)) slot total (same, table) =
      (same, Table-cons less count count' entry entries slot table total)

  Leaves-if :
      (count : ℕ) (b : Bool) (m n : Action S Entries)
      → (b ≡ true → Leaves s less count (m s))
      → (b ≡ false → Leaves s less count (n s))
      → Leaves s less count ((if b then m else n) s)
  Leaves-if count true m n l k = l refl
  Leaves-if count false m n l k = k refl

  Leaves-tfassert :
      (count : ℕ) (b : Bool) (m : Action S Entries)
      → Leaves s less count (m s)
      → Leaves s less count ((tfassert b >> m) s)
  Leaves-tfassert count true m l = l
  Leaves-tfassert count false m l = tt

  Leaves-pure :
      (count : ℕ) (entries : List IrqStruct)
      → Table less count entries
      → Leaves s less count (ok (some entries, s))
  Leaves-pure count entries table = (refl, table)

module _ {S : Type 0} (s : S) where
  pub request_in-Leaves :
      (new : IrqStruct) (entries : List IrqStruct)
      → new.allocated ≡ 1
      → All IsSlot entries
      → Leaves s 0 (suc (in_use entries)) (request_in new entries s)
  unfolding request_in
  request_in-Leaves new [] fresh slots = tt
  request_in-Leaves new (entry ∷ entries) fresh (slot, slots) =
      Leaves-if s 0 _ (entry.allocated == 1) _ _
        (λ taken.
          Leaves-after s 0 entry _ _ _ slot (ground arith)
            (request_in-Leaves new entries fresh slots))
        (λ other.
          Leaves-tfassert s 0 _ (entry.allocated == 0)
            (if ltb (length new.name) name_size
              then pure (some (new ∷ entries))
              else halt out_of_bounds)
            (Leaves-if s 0 _ (ltb (length new.name) name_size) (pure (some (new ∷ entries)))
              (halt out_of_bounds)
              (λ fits.
                Leaves-pure s 0 _ (new ∷ entries) (
                  Table-cons 0 _ _ new entries (inr fresh) (Table-of entries slots) (ground arith)))
              (λ long. tt)))

  pub free_in-Leaves :
      (ongoing irq dev_id : ℕ) (entries : List IrqStruct)
      → All IsSlot entries
      → Leaves s 1 (in_use entries) (free_in ongoing irq dev_id entries s)
  unfolding free_in
  free_in-Leaves ongoing irq dev_id [] slots = tt
  free_in-Leaves ongoing irq dev_id (entry ∷ entries) (slot, slots) =
      Leaves-if s 1 _ (is_irq irq entry) _ _
        (λ own.
          Leaves-tfassert s 1 _ (ongoing == 0)
            (tfassert (dev_id == entry.parameter) >> pure (some (reset_one ∷ entries)))
            (Leaves-tfassert s 1 _ (dev_id == entry.parameter) (pure (some (reset_one ∷ entries))) (
              Leaves-pure s 1 _ (reset_one ∷ entries)
                (record { slots = (inl refl, slots); counted = ground arith }))))
        (λ other.
          Leaves-after s 1 entry _ _ _ slot refl (free_in-Leaves ongoing irq dev_id entries slots))

  pub switch_in-Leaves :
      (old new irq : ℕ) (entries : List IrqStruct)
      → All IsSlot entries
      → Leaves s 0 (in_use entries) (switch_in old new irq entries s)
  unfolding switch_in
  switch_in-Leaves old new irq [] slots = tt
  switch_in-Leaves old new irq (entry ∷ entries) (slot, slots) =
      Leaves-if s 0 _ (is_irq irq entry) _ _
        (λ own.
          Leaves-tfassert s 0 _ (entry.enabled == old)
            (pure (some (record entry { enabled = new } ∷ entries)))
            (Leaves-pure s 0 _ (record entry { enabled = new } ∷ entries)
              (record { slots = (inr (ground arith), slots); counted = omega arith })))
        (λ other.
          Leaves-after s 0 entry _ _ _ slot refl (switch_in-Leaves old new irq entries slots))
