-- ===== src/FunctionTracker.antt =====
-- Which check routine belongs to a function of the driver, gtf/function_tracker.c. What is printed
-- is left out, but for the reads that the printing makes. A string is its bytes up to the
-- terminating 0; pointers are addresses, 0 for NULL.
pub mod Lookup
use driver_optimizer.Prelude.{
  ℕ, ◌+◌, Bool, true, false, not, ◌&&◌, ◌||◌, Option, none, some, List, [], ◌∷◌, ◌++◌, length, ltb,
  ◌==◌, is_none, if◌then◌else◌,
}
use driver_optimizer.Action.{
  Action, assertion, out_of_bounds, null_dereference, ◌>>=◌, ◌>>◌, pure, halt, get, put, modify,
  tfassert, the, zoom,
}
use driver_optimizer.Hashtable.{Hashtable}
use driver_optimizer.GlobalLock.{acquire_global_lock, release_global_lock}

-- struct hvalue of this file
pub record FunctionValue : Type 0 where
  pub driver_fn_ptr : ℕ
  pub wrapper_fn_ptr : ℕ
  pub str_driver_fn : List ℕ
  pub str_wrapper_fn : List ℕ
  pub str1 : List ℕ
  pub str2 : List ℕ

-- struct function_tracker_struct, and the lock of the framework. `objs` is NULL before the start and
-- after the end.
pub record FunctionTracker (T : Type 0) : Type 0 where
  pub global_lock_acquired : ℕ
  pub initialized : ℕ
  pub objs : Option T

-- "_" and "_MJRcheck"
abbrev pub underscore : List ℕ
underscore = 95 ∷ []

abbrev pub mjrcheck : List ℕ
mjrcheck = 95 ∷ 77 ∷ 74 ∷ 82 ∷ 99 ∷ 104 ∷ 101 ∷ 99 ∷ 107 ∷ []

-- the size of `temp` and of `fn_name`
abbrev pub buffer_size : ℕ
buffer_size = 128

-- !strcmp (str, "")
abbrev pub is_empty : List ℕ → Bool
is_empty [] = true
is_empty (c ∷ str) = false

-- wrapper_type[0] == '0' || wrapper_type[0] == '1'
abbrev pub is_wrapper : List ℕ → Bool
is_wrapper [] = false
is_wrapper (c ∷ str) = c == 48 || c == 49

-- objs_value
abbrev pub function_value : ℕ → ℕ → List ℕ → List ℕ → List ℕ → List ℕ → FunctionValue
function_value driver_fn_ptr wrapper_fn_ptr str_driver_fn str_wrapper_fn str1 str2 = record {
  driver_fn_ptr = driver_fn_ptr;
  wrapper_fn_ptr = wrapper_fn_ptr;
  str_driver_fn = str_driver_fn;
  str_wrapper_fn = str_wrapper_fn;
  str1 = str1;
  str2 = str2;
}

module _ {T A : Type 0} where
  abbrev pub on_tracker_lock : Action ℕ A → Action (FunctionTracker T) A
  on_tracker_lock =
      zoom (λ f. f.global_lock_acquired) (λ n f. record f { global_lock_acquired = n })

module _ {T : Type 0} ⦃h : Hashtable T FunctionValue⦄ where
  unfoldable pub initialize_function_tracker : Action (FunctionTracker T) Unit
  initialize_function_tracker = modify (λ f. record f { objs = some h.create; initialized = 1 })

  unfoldable pub free_function_tracker : Action (FunctionTracker T) Unit
  unfolding acquire_global_lock release_global_lock
  free_function_tracker = do
    on_tracker_lock acquire_global_lock
    f ← get
    if f.initialized == 1 then modify (λ g. record g { objs = none; initialized = 0 }) else pure tt
    on_tracker_lock release_global_lock

  -- hashtable_search (global_state.objs, &key)
  unfoldable pub function_search : ℕ → Action (FunctionTracker T) (Option FunctionValue)
  function_search driver_fn_ptr = do
    f ← get
    objs ← the null_dereference f.objs
    pure (h.search objs driver_fn_ptr)

  -- objs_insert
  unfoldable pub function_insert : ℕ → FunctionValue → Action (FunctionTracker T) Unit
  function_insert key value = do
    f ← get
    objs ← the null_dereference f.objs
    tfassert (is_none (h.search objs key))
    objs' ← the assertion (h.insert objs key value)
    put (record f { objs = some objs' })

  unfoldable pub gen_register_one : ℕ → ℕ → List ℕ → List ℕ → Action (FunctionTracker T) Unit
  unfolding function_insert
  gen_register_one wrapper_fn driver_fn wrapper_fn_str driver_fn_str =
      function_insert driver_fn
        (function_value driver_fn wrapper_fn driver_fn_str wrapper_fn_str [] [])

  -- The strings are written through the pointer that was found.
  abbrev pub convert_found :
      ℕ → List ℕ → List ℕ → Option FunctionValue → Action (FunctionTracker T) Unit
  convert_found orig_fn str1 str2 none = pure tt
  convert_found orig_fn str1 str2 (some value) = do
    f ← get
    objs ← the null_dereference f.objs
    put (record f {
      objs = some (h.store objs orig_fn (record value { str1 = str1; str2 = str2 }));
    })

  -- `orig_fn` is what `orig_fn_ptr` points to, which is read only if the pointer is plausible.
  unfoldable pub gen_convert_fn : ℕ → ℕ → List ℕ → List ℕ → Action (FunctionTracker T) Unit
  unfolding function_search acquire_global_lock release_global_lock
  gen_convert_fn orig_fn_ptr orig_fn str1 str2 =
      if ltb orig_fn_ptr 0xC0000000 || ltb 0xFFFF0000 orig_fn_ptr then pure tt else (do
        on_tracker_lock acquire_global_lock
        value ← function_search orig_fn
        convert_found orig_fn str1 str2 value
        on_tracker_lock release_global_lock)

-- The lookup. The kernel's symbol table is a parameter, with 0 for a name that it does not have, and
-- so is the address of default_MJRcheck.
module _ {S : Type 0} (symbol_lookup : List ℕ → ℕ) where
  -- a name built in a buffer of 128 bytes
  abbrev pub lookup_name : List ℕ → Action S ℕ
  lookup_name name =
      if ltb (length name) buffer_size then pure (symbol_lookup name) else halt out_of_bounds

  unfoldable pub simple_lookup : FunctionValue → Action S ℕ
  simple_lookup value = lookup_name (value.str_driver_fn ++ mjrcheck)

  unfoldable pub complex_lookup : FunctionValue → Action S ℕ
  unfolding simple_lookup
  complex_lookup value =
      if not (is_empty value.str1) && not (is_empty value.str2)
      then lookup_name (value.str1 ++ underscore ++ value.str2 ++ mjrcheck)
      else if is_empty value.str1 && is_empty value.str2
      then simple_lookup value
      else halt assertion

module _ {T : Type 0} ⦃h : Hashtable T FunctionValue⦄ (symbol_lookup : List ℕ → ℕ)
    (default_check : ℕ) where
  -- After the search. Both branches at the end print a field of the value, which is read.
  abbrev pub lookup_found : List ℕ → Option FunctionValue → Action (FunctionTracker T) ℕ
  lookup_found wrapper_type none =
      if is_wrapper wrapper_type
      then halt assertion
      else (lookup_name symbol_lookup (wrapper_type ++ mjrcheck) >>= λ retval.
          halt null_dereference)
  lookup_found wrapper_type (some value) = do
    retval ←
        if is_wrapper wrapper_type
        then complex_lookup symbol_lookup value
        else lookup_name symbol_lookup (wrapper_type ++ mjrcheck)
    pure (if retval == 0 then default_check else retval)

  unfoldable pub gen_lookup : List ℕ → ℕ → Action (FunctionTracker T) ℕ
  unfolding function_search complex_lookup acquire_global_lock release_global_lock
  gen_lookup wrapper_type driver_fn_ptr = do
    on_tracker_lock acquire_global_lock
    value ← function_search driver_fn_ptr
    retval ← lookup_found wrapper_type value
    on_tracker_lock release_global_lock
    pure retval
