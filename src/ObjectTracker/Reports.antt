-- ===== src/ObjectTracker/Reports.antt =====
-- What the object tracker of gtf/test_state.c reports of a faulty driver.
use driver_optimizer.Prelude.{
  ℕ, ◌≡◌, refl, ==-refl, true, false, ◌||◌, not, Option, none, some, is_none, bit_and, inl, inr,
  Bool-cases, Option-cases, List, arith, ◌==◌, ltb, pos, if◌then◌else◌,
}
use driver_optimizer.Action.{Result, Stop, ok, stop, assertion, null_dereference, out_of_bounds}
use driver_optimizer.Hashtable.{Hashtable}
use driver_optimizer.State.{HValue, GlobalState, Kernel}
use driver_optimizer.ObjectTracker.{
  is_insane, has_origin, origin_str_size, generic_free, generic_allocator,
}
use driver_optimizer.ObjectTracker.Table.{tracked}
use driver_optimizer.ObjectTracker.Allocation.{copied, Records, HasMemory, fresh}

module _ {T : Type 0} ⦃h : Hashtable T HValue⦄ (s : GlobalState T) where
  -- A double free is found: after a free that returned, freeing the same object again ends the path
  -- by an assertion, whatever origin is given.
  pub double_free :
      (t : GlobalState T) (object origin again : ℕ)
      → generic_free (pos 0) object origin s ≡ ok (tt, t)
      → generic_free (pos 0) object again t ≡ stop assertion
  unfolding generic_free
  double_free t object origin again freed =
      let gone : h.search t.objs object ≡ none =
        ground (arith, h.search-remove s.objs object object) in
      rw gone

  -- A free says what the object was: it returns exactly when the object is tracked with an origin
  -- that has a bit in common with the expected one, and the other objects are then as before.
  free_records :
      (t : GlobalState T) (object origin other : ℕ)
      → generic_free (pos 0) object origin s ≡ ok (tt, t)
      → (has_origin origin (tracked s object) ≡ true)
        × (tracked t other ≡ (if object == other then none else tracked s other))
  unfolding generic_free
  free_records t object origin other freed =
      (ground arith, ground (arith, h.search-remove s.objs object other))

module _ ⦃k : Kernel⦄ (fn : List ℕ) (object size origin : ℕ) where
  -- Why the check of an allocation ends the path, if it does.
  abbrev pub reason : Records → Option Stop
  reason m =
      if k.is_err object || object == 0
      then none
      else if ltb origin_str_size (copied fn)
      then some out_of_bounds
      else if not (is_none (m object))
      then some assertion
      else if is_insane size
      then some null_dereference
      else if bit_and origin origin == 0
      then some assertion
      else none

-- The path went on, or it ended for the reason.
abbrev pub EndsFor : {A : Type 0} → Result A → Option Stop → Type 0
EndsFor (ok a) none = Unit {0}
EndsFor (ok a) (some why) = ⊥
EndsFor (stop e) none = ⊥
EndsFor (stop e) (some why) = e ≡ why

module _ {T : Type 0} ⦃h : Hashtable T HValue⦄ ⦃k : Kernel⦄ (memory : HasMemory T)
    (s : GlobalState T) (fn : List ℕ) (object size origin : ℕ) where
  sane :
      (k.is_err object || object == 0) ≡ false
      → ltb origin_str_size (copied fn) ≡ false
      → tracked s object ≡ none
      → is_insane size ≡ false
      → EndsFor
          (generic_allocator fn (pos 1) object size origin s)
          (reason fn object size origin (tracked s))
  unfolding generic_allocator
  sane real short absent plausible =
      let value = fresh fn size origin in
      let (objs, stored) = memory s.objs object value in
      let found : h.search objs object ≡ some value =
        rw (h.search-insert s.objs object object value objs absent stored, ==-refl object) refl in
      elim (Bool-cases (bit_and origin origin == 0)) [
        | inl bad ↦ rw (real, short, absent, absent, plausible, stored, found, bad) refl
        | inr good ↦ rw (real, short, absent, absent, plausible, stored, found, good) tt
      ]

  -- How the check after an allocation ends, with memory for the framework's own table. It passes an
  -- error or NULL over. For any other object it ends the path where the name of the caller overruns
  -- the buffer `origin_str`, as an empty name does and one of more than 65 bytes; else by an assertion
  -- where the object is tracked already; else, where the size is insane, by reading a NULL pointer in
  -- place of the report that was meant; and else by an assertion where the origin is empty. In all
  -- other cases it returns.
  pub allocation_reports :
      EndsFor
        (generic_allocator fn (pos 1) object size origin s)
        (reason fn object size origin (tracked s))
  unfolding generic_allocator
  allocation_reports = elim (Bool-cases (k.is_err object || object == 0)) [
    | inl bogus ↦ rw bogus tt
    | inr real ↦ elim (Bool-cases (ltb origin_str_size (copied fn))) [
      | inl long ↦ rw (real, long) refl
      | inr short ↦ elim (Option-cases (tracked s object)) [
        | inr (v, known) ↦ rw (real, short, known) refl
        | inl absent ↦ elim (Bool-cases (is_insane size)) [
          | inl insane ↦ rw (real, short, absent, absent, insane) refl
          | inr plausible ↦ sane real short absent plausible
        ]
      ]
    ]
  ]
