-- ===== src/Irq/Requests.antt =====
-- The table of requests of gtf/misc_checks/irq.c: how many there are, and what a request that is
-- given back leaves.
use driver_optimizer.Prelude.{
  ℕ, suc, ◌+◌, ◌-◌, ◌<◌, ◌≤◌, ◌≡◌, refl, ap, ◌∙◌, true, false, none, some, List, [], ◌∷◌, length,
  ltb, ◌==◌, is_none, if◌then◌else◌, pos, arith, All, ◌⊎◌, inl, inr, ==-refl, sym,
}
use driver_optimizer.Action.{
  Result, ok, stop, assertion, out_of_bounds, ◌>>=◌, ◌>>◌, continue, pure,
}
use driver_optimizer.Framework.{IrqStruct, IrqState}
use driver_optimizer.Irq.{
  reset_one, requested, is_irq, after, request_in, free_in, request_threaded_irq, free_irq,
  name_size,
}

-- An entry is in use, or was never used or is reset.
abbrev pub IsSlot : IrqStruct → Type 0
IsSlot entry = (entry ≡ reset_one) ⊎ (entry.allocated ≡ 1)

-- how many entries are in use
abbrev pub in_use : List IrqStruct → ℕ
in_use [] = 0
in_use (entry ∷ entries) = if entry.allocated == 1 then suc (in_use entries) else in_use entries

-- the array with `new` in its first free entry
abbrev pub place : IrqStruct → List IrqStruct → List IrqStruct
place new [] = []
place new (entry ∷ entries) =
    if entry.allocated == 1 then entry ∷ place new entries else new ∷ entries

in_use_le : (entries : List IrqStruct) → in_use entries ≤ length entries
in_use_le [] = omega arith
in_use_le (entry ∷ entries) = let rest = in_use_le entries in ground arith

place_taken :
    (new entry : IrqStruct) (entries : List IrqStruct)
    → entry.allocated ≡ 1
    → place new (entry ∷ entries) ≡ entry ∷ place new entries
place_taken new entry entries taken = rw taken refl

place_free :
    (new entry : IrqStruct) (entries : List IrqStruct)
    → entry.allocated ≡ 0
    → place new (entry ∷ entries) ≡ new ∷ entries
place_free new entry entries free = rw free refl

module _ {S : Type 0} (new : IrqStruct) (s : S) where
  request_in_lem :
      (entries : List IrqStruct)
      → All IsSlot entries
      → request_in new entries s ≡ (
          if ltb (in_use entries) (length entries)
          then (if ltb (length new.name) name_size
              then ok (some (place new entries), s)
              else stop out_of_bounds)
          else ok (none, s))
  unfolding request_in
  request_in_lem [] slots = refl
  request_in_lem (entry ∷ entries) (inl free, slots) =
      let bound = in_use_le entries in let allocated = ap (λ e. e.allocated) free in ground arith
  request_in_lem (entry ∷ entries) (inr taken, slots) =
      let rest = request_in_lem entries slots in let bound = in_use_le entries in ground arith

  free_in_found :
      (irq dev_id : ℕ) (entries : List IrqStruct)
      → is_irq irq new ≡ true
      → new.parameter ≡ dev_id
      → free_in 0 irq dev_id (new ∷ entries) s ≡ ok (some (reset_one ∷ entries), s)
  unfolding free_in
  free_in_found irq dev_id entries fresh id = rw (fresh, id, ==-refl dev_id) refl

  free_in_passed :
      (irq dev_id : ℕ) (entry : IrqStruct) (entries : List IrqStruct)
      → is_irq irq entry ≡ false
      → free_in 0 irq dev_id (entry ∷ entries) s
        ≡ (free_in 0 irq dev_id entries >>= λ found. pure (after entry found)) s
  unfolding free_in
  free_in_passed irq dev_id entry entries other = rw other refl

  free_in-place :
      (irq dev_id : ℕ) (entries : List IrqStruct)
      → All IsSlot entries
      → All (λ e. is_irq irq e ≡ false) entries
      → is_irq irq new ≡ true
      → new.parameter ≡ dev_id
      → in_use entries < length entries
      → free_in 0 irq dev_id (place new entries) s ≡ ok (some entries, s)
  free_in-place irq dev_id [] slots others fresh id room = absurd (omega arith)
  free_in-place irq dev_id (entry ∷ entries) (inl free, slots) (other, others) fresh id room =
      ap (λ es. free_in 0 irq dev_id es s)
        (place_free new entry entries (ap (λ e. e.allocated) free))
      ∙ free_in_found irq dev_id entries fresh id
      ∙ ap (λ e. ok (some (e ∷ entries), s)) (sym free)
  free_in-place irq dev_id (entry ∷ entries) (inr taken, slots) (other, others) fresh id room =
      ap (λ es. free_in 0 irq dev_id es s) (place_taken new entry entries taken)
      ∙ free_in_passed irq dev_id entry (place new entries) other
      ∙ ap (λ r. continue r (λ found. pure (after entry found)))
          (free_in-place irq dev_id entries slots others fresh id (ground arith))

module _ (s : IrqState) (irq handler flags : ℕ) (dev_name : List ℕ) (dev_id : ℕ) where
  abbrev new : IrqStruct
  new = requested irq handler flags dev_name dev_id

  -- the state with the request in the first free entry
  abbrev pub with_request : IrqState
  with_request = record s {
    sym_irq = place new s.sym_irq;
    sym_num_requests = s.sym_num_requests + 1;
  }

  -- A request that the kernel has granted is recorded, with the count of requests, in the first free
  -- entry of the table, if one is free, the name fits in its 127 characters and the counters of lines
  -- are there. The path ends by an assertion if the table is full or the counters are not there; a
  -- longer name is written past its array.
  pub request_lem :
      All IsSlot s.sym_irq
      → request_threaded_irq (pos 1) 0 irq handler flags dev_name dev_id s ≡ (
          if ltb (in_use s.sym_irq) (length s.sym_irq)
          then (if ltb (length dev_name) name_size
              then (if is_none s.sym_irq_lines then stop assertion else ok (tt, with_request))
              else stop out_of_bounds)
          else stop assertion)
  unfolding request_threaded_irq
  request_lem slots =
      let found =
        request_in_lem new (record s { sym_num_requests = s.sym_num_requests + 1 }) s.sym_irq
          slots in
      ground arith

  free_with_request :
      All IsSlot s.sym_irq
      → All (λ e. is_irq irq e ≡ false) s.sym_irq
      → in_use s.sym_irq < length s.sym_irq
      → s.sym_irq_ongoing ≡ 0
      → free_irq (pos 0) irq dev_id with_request ≡ ok (tt, s)
  unfolding free_irq
  free_with_request slots others room idle =
      let found =
        ap
          (λ n.
            free_in n irq dev_id (place new s.sym_irq)
              (record with_request { sym_num_requests = s.sym_num_requests + 1 - 1 }))
          idle
        ∙ free_in-place new (record with_request { sym_num_requests = s.sym_num_requests + 1 - 1 })
            irq dev_id s.sym_irq slots others (==-refl irq) refl room in
      ground arith

  granted :
      (r : Result {0} (Unit {0} × IrqState))
      → in_use s.sym_irq < length s.sym_irq
      → length dev_name < name_size
      → is_none s.sym_irq_lines ≡ false
      → (if ltb (in_use s.sym_irq) (length s.sym_irq)
          then (if ltb (length dev_name) name_size
              then (if is_none s.sym_irq_lines then stop assertion else r)
              else stop out_of_bounds)
          else stop assertion)
        ≡ r
  granted r room fits lines = ground arith

  -- A request that is recorded and then given back under the same number and the same parameter
  -- leaves the state as it was, where no other request has that number, an entry is free, the name
  -- fits and no handler is running.
  pub free-request :
      All IsSlot s.sym_irq
      → All (λ e. is_irq irq e ≡ false) s.sym_irq
      → in_use s.sym_irq < length s.sym_irq
      → length dev_name < name_size
      → is_none s.sym_irq_lines ≡ false
      → s.sym_irq_ongoing ≡ 0
      → (request_threaded_irq (pos 1) 0 irq handler flags dev_name dev_id
            >> free_irq (pos 0) irq dev_id)
          s
        ≡ ok (tt, s)
  free-request slots others room fits lines idle =
      let recorded = request_lem slots in
      ap (λ r. continue r (λ _. free_irq (pos 0) irq dev_id))
        (recorded ∙ granted (ok (tt, with_request)) room fits lines)
      ∙ free_with_request slots others room idle
