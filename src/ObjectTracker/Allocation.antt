-- ===== src/ObjectTracker/Allocation.antt =====
-- generic_allocator and generic_free of gtf/test_state.c against a map from objects to what is
-- known of them, over any history of calls.
use driver_optimizer.Prelude.{
  refl, subst, true, Option-cases, false, ℕ, ◌≡◌, inl, inr, fun_ext, not, ◌||◌, Option, none, some,
  List, [], ◌∷◌, length, take, ◌==◌, ==-refl, ltb, is_none, if◌then◌else◌, Bool-cases, bit_and, pos,
  ◌+◌, ◌%◌, replicate,
}
use driver_optimizer.Action.{Stop, continue, Action, Result, ok, stop, pure, ◌>>◌}
use driver_optimizer.Hashtable.{Hashtable}
use driver_optimizer.State.{HValue, GlobalState, num_lock_types, Kernel, ulong_max}
use driver_optimizer.ObjectTracker.{
  is_insane, has_origin, origin_str_size, generic_free, generic_allocator,
}
use driver_optimizer.ObjectTracker.Table.{tracked}

-- the number of bytes that strncpy is told to copy
abbrev pub copied : List ℕ → ℕ
copied fn = (length fn + ulong_max) % (ulong_max + 1)

-- the record of a new object
abbrev pub fresh : List ℕ → ℕ → ℕ → HValue
fresh fn size origin = record {
  origin_str = take (copied fn) fn;
  origin = origin;
  size = size;
  new_object = 1;
  lock_state = replicate num_lock_types 0;
}

-- A call of the kernel that the driver makes: it has returned an object, or will free one.
pub data Event : Type 0 where
  allocated : List ℕ → ℕ → ℕ → ℕ → Event
  freed : ℕ → ℕ → Event

-- What is known of each object.
abbrev pub Records : Type 0
Records = ℕ → Option HValue

abbrev pub with_record : Records → ℕ → Option HValue → Records
with_record m object value = λ j. if object == j then value else m j

module _ ⦃k : Kernel⦄ where
  -- What a call does to a map. A bogus pointer is passed over. `none` is a violation: the object is
  -- known already, its size or its origin makes no sense, or the name of its allocator is too long;
  -- an object is freed that is not known, or that has no origin in common with `origin`.
  abbrev pub spec_step : Event → Records → Option Records
  spec_step (allocated fn object size origin) m =
      if k.is_err object || object == 0
      then some m
      else if ltb origin_str_size (copied fn)
          || not (is_none (m object))
          || is_insane size
          || bit_and origin origin == 0
      then none
      else some (with_record m object (some (fresh fn size origin)))
  spec_step (freed object origin) m =
      if has_origin origin (m object) then some (with_record m object none) else none

  abbrev pub spec_run : List Event → Option Records → Option Records
  spec_run events none = none
  spec_run [] (some m) = some m
  spec_run (e ∷ events) (some m) = spec_run events (spec_step e m)

module _ {T : Type 0} ⦃h : Hashtable T HValue⦄ ⦃k : Kernel⦄ where
  -- The check that the framework runs around a call.
  unfoldable pub step : Event → Action (GlobalState T) Unit
  step (allocated fn object size origin) = generic_allocator fn (pos 1) object size origin
  step (freed object origin) = generic_free (pos 0) object origin

  unfoldable pub run : List Event → Action (GlobalState T) Unit
  run [] = pure tt
  run (e ∷ events) = do step e; run events

-- The table has memory for every insertion.
abbrev pub HasMemory : (T : Type 0) ⦃h : Hashtable T HValue⦄ → Type 0
HasMemory T ⦃h⦄ = (t : T) (key : ℕ) (value : HValue) → (t' : T) × (h.insert t key value ≡ some t')

module _ {T : Type 0} ⦃h : Hashtable T HValue⦄ where
  -- The framework went on, and its table holds the map; or it ended the path at a violation.
  abbrev pub Agrees : Result {0} (Unit {0} × GlobalState T) → Option {0} Records → Type 0
  Agrees (ok (u, t)) (some m) = tracked t ≡ m
  Agrees (ok (u, t)) none = ⊥
  Agrees (stop e) (some m) = ⊥
  Agrees (stop e) none = Unit {0}

module _ {T : Type 0} ⦃h : Hashtable T HValue⦄ ⦃k : Kernel⦄ (memory : HasMemory T) where
  free-Agrees :
      (object origin : ℕ) (s : GlobalState T)
      → Agrees (generic_free (pos 0) object origin s) (spec_step (freed object origin) (tracked s))
  unfolding generic_free
  free-Agrees object origin s = elim (Bool-cases (has_origin origin (tracked s object))) [
    | inl e ↦ rw e (fun_ext λ j. h.search-remove s.objs object j)
    | inr e ↦ rw e tt
  ]

  -- The call on a pointer that is no error, with a name that is short enough.
  module _ (fn : List ℕ) (object size origin : ℕ) (s : GlobalState T)
      (real : (k.is_err object || object == 0) ≡ false)
      (short : ltb origin_str_size (copied fn) ≡ false) where
    alloc_known :
        (v : HValue)
        → tracked s object ≡ some v
        → Agrees
            (generic_allocator fn (pos 1) object size origin s)
            (spec_step (allocated fn object size origin) (tracked s))
    unfolding generic_allocator
    alloc_known v known = rw (real, short, known) tt

    alloc_insane :
        tracked s object ≡ none
        → is_insane size ≡ true
        → Agrees
            (generic_allocator fn (pos 1) object size origin s)
            (spec_step (allocated fn object size origin) (tracked s))
    unfolding generic_allocator
    alloc_insane absent insane = rw (real, short, absent, absent, insane) tt

    alloc_sane :
        tracked s object ≡ none
        → is_insane size ≡ false
        → Agrees
            (generic_allocator fn (pos 1) object size origin s)
            (spec_step (allocated fn object size origin) (tracked s))
    unfolding generic_allocator
    alloc_sane absent sane =
        let value = fresh fn size origin in
        let (objs, stored) = memory s.objs object value in
        let holds : (j : ℕ) → h.search objs j ≡ with_record (tracked s) object (some value) j =
          λ j. h.search-insert s.objs object j value objs absent stored in
        let found : h.search objs object ≡ some value = rw (holds object, ==-refl object) in
        elim (Bool-cases (bit_and origin origin == 0)) [
          | inl bad ↦ rw (real, short, absent, absent, sane, stored, found, bad) tt
          | inr good ↦ rw (real, short, absent, absent, sane, stored, found, good) (fun_ext holds)
        ]

  alloc-Agrees :
      (fn : List ℕ) (object size origin : ℕ) (s : GlobalState T)
      → Agrees
          (generic_allocator fn (pos 1) object size origin s)
          (spec_step (allocated fn object size origin) (tracked s))
  alloc-Agrees fn object size origin s = elim (Bool-cases (k.is_err object || object == 0)) [
    | inl bogus ↦ unfold generic_allocator in rw bogus refl
    | inr real ↦ elim (Bool-cases (ltb origin_str_size (copied fn))) [
      | inl long ↦ unfold generic_allocator in rw (real, long) tt
      | inr short ↦ elim (Option-cases (tracked s object)) [
        | inr (v, known) ↦ alloc_known fn object size origin s real short v known
        | inl absent ↦ elim (Bool-cases (is_insane size)) [
          | inl insane ↦ alloc_insane fn object size origin s real short absent insane
          | inr sane ↦ alloc_sane fn object size origin s real short absent sane
        ]
      ]
    ]
  ]

  pub step-Agrees : (e : Event) (s : GlobalState T) → Agrees (step e s) (spec_step e (tracked s))
  unfolding step
  step-Agrees (allocated fn object size origin) s = alloc-Agrees fn object size origin s
  step-Agrees (freed object origin) s = free-Agrees object origin s

  -- After a violation the map meets nothing more.
  spec_run-none : (events : List Event) (e : Stop) → Agrees {T = T} (stop e) (spec_run events none)
  spec_run-none [] e = tt
  spec_run-none (event ∷ events) e = tt

  -- Over any history of allocations and frees, and with memory for its own table, the tracker does
  -- what the map does: it goes on as long as the map meets no violation, and then holds the map's
  -- records; it ends the path at the first violation.
  pub run-implements-spec_run :
      (events : List Event) (s : GlobalState T)
      → Agrees (run events s) (spec_run events (some (tracked s)))
  unfolding run
  run-implements-spec_run [] s = refl
  run-implements-spec_run (e ∷ events) s =
      later (step e s) (spec_step e (tracked s)) (run-implements-spec_run events) (step-Agrees e s)
    where
      later :
          (r : Result {0} (Unit {0} × GlobalState T)) (o : Option {0} Records)
          → ((t : GlobalState T) → Agrees (run events t) (spec_run events (some (tracked t))))
          → Agrees r o
          → Agrees (continue r (λ _. run events)) (spec_run events o)
      later (ok (u, t)) (some m) ih a =
          subst (λ m'. Agrees (run events t) (spec_run events (some m'))) a (ih t)
      later (ok (u, t)) none ih a = absurd a
      later (stop e) (some m) ih a = absurd a
      later (stop e) none ih a = spec_run-none events e
