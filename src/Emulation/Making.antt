-- ===== src/Emulation/Making.antt =====
-- The loop of alloc_devices, gtf/bus_i2c.c, whatever the kernel answers.
use driver_optimizer.Prelude.{
  ℕ, ◌≡◌, refl, ◌∙◌, ◌+◌, ◌≤◌, ◌==◌, ◌&&◌, ◌||◌, ltb, Bool, true, false, List, [], ◌∷◌, ◌++◌,
  Option, none, some, length, if◌then◌else◌, arith, inl, inr, Bool-cases,
}
use driver_optimizer.Action.{ok}
use driver_optimizer.Emulation.{Emulation, Answers, BoardInfo, Chip, KernelCall, i2c_new_device}
use driver_optimizer.Emulation.I2c.{cleanup_from, copy_name, alloc_from}
use driver_optimizer.Emulation.Clients.{
  devices, held, cleaned, unregistered, all_used, all_vacant, cleanup_from_lem, held-made,
  held-unused, all_used-append, held-cleaned, devices-unregistered, devices-new,
}

module _ (answers : Answers) where
  -- strcpy of a name does not overrun
  abbrev pub fits : Option (List ℕ) → Bool
  fits none = false
  fits (some name) = ltb (length name) answers.i2c_name_size

  -- the chips in use have such names
  unfoldable pub all_named : List Chip → Bool
  all_named [] = true
  all_named (chip ∷ chips) = chip.chip_addr == 0 || (fits chip.name && all_named chips)

  copy_name_lem :
      (name : Option (List ℕ))
      → fits name ≡ true
      → (type : List ℕ) × ((s : Emulation) → copy_name answers name s ≡ ok (type, s))
  copy_name_lem none e = absurd cc
  copy_name_lem (some name) e = (name, λ s. rw e refl)

  module _ (irq : ℕ) (chip : Chip) (type : List ℕ) (calls : List KernelCall) where
    abbrev info : BoardInfo
    info = record { type = type; addr = chip.chip_addr; irq = irq }

    abbrev new_client : ℕ
    new_client = answers.new_device_result calls info

    abbrev made : Chip
    made = record chip { board_info = info; client = new_client }

    -- the calls with the one that makes the client
    abbrev seen : List KernelCall
    seen = i2c_new_device info new_client ∷ calls

  -- one turn of the loop
  alloc_from_step :
      (irq : ℕ) (before after : List Chip) (chip : Chip) (type : List ℕ) (s : Emulation)
      → (chip.chip_addr == 0) ≡ false
      → copy_name answers chip.name s ≡ ok (type, s)
      → alloc_from answers irq before (chip ∷ after) s
        ≡ (if new_client irq chip type s.calls == 0
              then cleanup_from (before ++ made irq chip type s.calls ∷ after)
              else alloc_from answers irq (before ++ made irq chip type s.calls ∷ []) after)
            (record s { calls = seen irq chip type s.calls })
  unfolding alloc_from
  alloc_from_step irq before after chip type s used copied = rw (used, copied) refl

  -- a client that the kernel refuses: all that were made are taken away
  refused :
      (irq : ℕ) (before after : List Chip) (chip : Chip) (type : List ℕ) (calls : List KernelCall)
      → all_used before ≡ true
      → (chip.chip_addr == 0) ≡ false
      → all_vacant after ≡ true
      → (new_client irq chip type calls == 0) ≡ true
      → ((x : ℕ) → held before x ≤ devices calls x)
      → (x : ℕ)
      → devices
            (unregistered (before ++ made irq chip type calls ∷ after) (seen irq chip type calls))
            x
          + held before x
        ≡ devices calls x + held (cleaned (before ++ made irq chip type calls ∷ after)) x
  unfolding devices
  refused irq before after chip type calls used in_use vacant none_made enough x =
      let array = before ++ made irq chip type calls ∷ after in
      let all : (y : ℕ) → held array y ≡ held before y = λ y.
        let h = held-made before (made irq chip type calls) after y used in_use vacant in
        ground arith in
      let gone =
        devices-unregistered array (seen irq chip type calls)
          (λ y. let h = all y in let e = enough y in ground arith) x in
      let none_left = held-cleaned array x in let here = all x in ground arith

  -- a client that the kernel makes is one more there, and one more held
  grown :
      (irq : ℕ) (before : List Chip) (chip : Chip) (type : List ℕ) (calls : List KernelCall)
      → all_used before ≡ true
      → (chip.chip_addr == 0) ≡ false
      → (x : ℕ)
      → devices (seen irq chip type calls) x + held before x
        ≡ devices calls x + held (before ++ made irq chip type calls ∷ []) x
  unfolding all_vacant
  grown irq before chip type calls used in_use x =
      let counted =
        devices-new (info irq chip type calls) (new_client irq chip type calls) calls x in
      let more = held-made before (made irq chip type calls) [] x used in_use refl in omega arith

  -- the clients that are there after the loop are those of the chips
  abbrev pub ExactlyHeld : ℕ → List Chip → List Chip → Emulation → Type 0
  ExactlyHeld irq before after s =
      (chips : List Chip) × (calls : List KernelCall) × (alloc_from answers irq before after s
        ≡ ok (chips, record s { calls = calls }))
      × ((x : ℕ) → devices calls x + held before x ≡ devices s.calls x + held chips x)

  -- Whatever the kernel answers, the clients that are there after the loop are those of the chips.
  pub alloc_from_lem :
      (irq : ℕ) (before after : List Chip) (s : Emulation)
      → all_used before ≡ true
      → all_vacant after ≡ true
      → all_named after ≡ true
      → ((x : ℕ) → held before x ≤ devices s.calls x)
      → ExactlyHeld irq before after s
  unfolding alloc_from all_vacant all_named
  alloc_from_lem irq before [] s used vacant named enough = (before, s.calls, refl, λ x. refl)
  alloc_from_lem irq before (chip ∷ after) s used vacant named enough =
      elim (Bool-cases (chip.chip_addr == 0)) [
        | inl unused ↦ (
          before ++ chip ∷ after,
          s.calls,
          rw unused refl,
          λ x. let all = held-unused before chip after x used unused in ground arith,
        )
        | inr in_use ↦
            let fit : fits chip.name ≡ true = ground arith in
            let vacant' : all_vacant after ≡ true = ground arith in
            let named' : all_named after ≡ true = ground arith in
            let copied = copy_name_lem chip.name fit in
            let type = (copied).0 in
            let step = alloc_from_step irq before after chip type s in_use ((copied).1 s) in
            elim (Bool-cases (new_client irq chip type s.calls == 0)) [
              | inl none_made ↦
                  let array = before ++ made irq chip type s.calls ∷ after in
                  (
                    cleaned array,
                    unregistered array (seen irq chip type s.calls),
                    step
                        ∙ rw none_made (
                            cleanup_from_lem array
                              (record s { calls = seen irq chip type s.calls })),
                    refused irq before after chip type s.calls used in_use vacant' none_made enough,
                  )
              | inr is_made ↦
                  let next = before ++ made irq chip type s.calls ∷ [] in
                  let rest =
                    alloc_from_lem irq next after (record s { calls = seen irq chip type s.calls })
                      (all_used-append before (made irq chip type s.calls) used in_use) vacant'
                      named'
                      (λ y.
                        let e = enough y in
                        let c = grown irq before chip type s.calls used in_use y in omega arith) in
                  let (chips, calls, ran, exact) = rest in
                  (
                    chips,
                    calls,
                    step ∙ rw is_made ran,
                    λ x.
                        let r = exact x in
                        let c = grown irq before chip type s.calls used in_use x in omega arith,
                  )
            ]
      ]
