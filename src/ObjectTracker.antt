-- ===== src/ObjectTracker.antt =====
-- The object tracker of gtf/test_state.c: which objects the driver has allocated, by which call and
-- how large. An argument `fn` is kept where it is stored, and left out where it is only printed;
-- an allocation of the tracker's own by mjr_kmalloc_atomic is taken to succeed.
pub mod Table
pub mod Allocation
pub mod Reports
use driver_optimizer.Prelude.{
  ℕ, ◌+◌, ◌%◌, Bool, true, false, not, ◌&&◌, ◌||◌, Option, none, some, List, length, take,
  replicate, ltb, ◌==◌, is_none, if◌then◌else◌, bit_and, ℤ, pos, ◌==ℤ◌,
}
use driver_optimizer.Action.{
  Action, null_dereference, out_of_bounds, assertion, ◌>>=◌, ◌>>◌, pure, halt, get, put, modify,
  tfassert, the,
}
use driver_optimizer.Hashtable.{Hashtable}
use driver_optimizer.State.{HValue, GlobalState, ulong_max, num_lock_types, Kernel}

-- the bytes of `origin_str[64]` after `strncpy (.., fn, strlen (fn) - 1)` on a zeroed buffer
abbrev pub origin_str_size : ℕ
origin_str_size = 64

module _ {S : Type 0} where
  unfoldable pub copy_origin : List ℕ → Action S (List ℕ)
  copy_origin fn =
      let n = (length fn + ulong_max) % (ulong_max + 1) in
      if ltb origin_str_size n then halt out_of_bounds else pure (take n fn)

  unfoldable pub objs_value : List ℕ → ℕ → ℕ → ℕ → Action S HValue
  unfolding copy_origin
  objs_value fn origin size new_object = do
    origin_str ← copy_origin fn
    pure (record {
      origin_str = origin_str;
      origin = origin;
      size = size;
      new_object = new_object;
      lock_state = replicate num_lock_types 0;
    })

-- 0, or more than ten million and not (unsigned long) -1
abbrev pub is_insane : ℕ → Bool
is_insane size = (size == 0 || ltb 10000000 size) && not (size == ulong_max)

-- the tests of assert_allocated_weak, assert_allocated and generic_free on what a search found
abbrev pub large_enough : ℕ → Option HValue → Bool
large_enough minsize none = true
large_enough minsize (some on_heap) = not (ltb on_heap.size minsize)

abbrev pub has_origin : ℕ → Option HValue → Bool
has_origin origin none = false
has_origin origin (some on_heap) = not (bit_and on_heap.origin origin == 0)

module _ {T : Type 0} ⦃h : Hashtable T HValue⦄ where
  unfoldable pub objs_search : ℕ → Action (GlobalState T) (Option HValue)
  objs_search key = do s ← get; pure (h.search s.objs key)

  unfoldable pub objs_remove : ℕ → Action (GlobalState T) (Option HValue)
  objs_remove key = do
    s ← get
    put (record s { objs = h.remove s.objs key })
    pure (h.search s.objs key)

  -- An insane size is reported through `result->origin`, where `result` is NULL.
  unfoldable pub objs_insert : ℕ → HValue → Action (GlobalState T) Unit
  unfolding objs_search
  objs_insert key value = do
    result ← objs_search key
    tfassert (is_none result)
    if is_insane value.size then halt null_dereference else pure tt
    s ← get
    objs ← the assertion (h.insert s.objs key value)
    put (record s { objs = objs; objs_dirty = 1 })

  unfoldable pub reset_new_objects : Action (GlobalState T) Unit
  reset_new_objects = do
    s ← get
    if s.objs_dirty == 0
        then pure tt
        else put (record s {
          objs = h.map_values (λ value. record value { new_object = 0 }) s.objs;
          objs_dirty = 0;
        })

  unfoldable pub assert_allocated_weak : ℕ → ℕ → Action (GlobalState T) Unit
  unfolding objs_search
  assert_allocated_weak object minsize = do
    on_heap ← objs_search object
    tfassert (large_enough minsize on_heap)

  unfoldable pub assert_allocated : ℕ → ℕ → Action (GlobalState T) Unit
  unfolding objs_search
  assert_allocated origin object = do
    on_heap ← objs_search object
    tfassert (has_origin origin on_heap)

  unfoldable pub generic_free : ℤ → ℕ → ℕ → Action (GlobalState T) Unit
  unfolding objs_remove
  generic_free prepost object origin =
      if prepost ==ℤ pos 0
      then (do value ← objs_remove object; tfassert (has_origin origin value))
      else if prepost ==ℤ pos 1
      then tfassert false
      else tfassert false

  unfoldable pub generic_allocator :
      ⦃k : Kernel⦄ → List ℕ → ℤ → ℕ → ℕ → ℕ → Action (GlobalState T) Unit
  unfolding objs_value objs_search objs_insert assert_allocated
  generic_allocator ⦃k⦄ fn prepost object object_size origin =
      if prepost ==ℤ pos 0
      then tfassert false
      else if prepost ==ℤ pos 1
      then (if k.is_err object || object == 0 then pure tt else do
        value ← objs_value fn origin object_size 1
        existing_value ← objs_search object
        tfassert (is_none existing_value)
        objs_insert object value
        assert_allocated origin object)
      else tfassert false
