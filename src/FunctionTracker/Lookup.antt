-- ===== src/FunctionTracker/Lookup.antt =====
-- What a registered function's lookup finds, gtf/function_tracker.c.
use driver_optimizer.Prelude.{
  ℕ, ◌≡◌, refl, ap, ◌∙◌, Bool, true, false, none, some, List, [], ◌++◌, length, ltb, ◌==◌,
  if◌then◌else◌, arith, ◌||◌, ◌&&◌, not, ==-refl,
}
use driver_optimizer.Action.{continue, ok, stop, assertion, out_of_bounds, ◌>>◌, Result}
use driver_optimizer.Hashtable.{Hashtable}
use driver_optimizer.FunctionTracker.{
  FunctionValue, FunctionTracker, function_value, gen_register_one, gen_convert_fn, gen_lookup,
  is_wrapper, is_empty, mjrcheck, underscore, buffer_size,
}

chosen : {A : Type 0} {b : Bool} {x : A} (y : A) → b ≡ true → (if b then x else y) ≡ x
chosen y p = rw p refl

module _ {T : Type 0} ⦃h : Hashtable T FunctionValue⦄ (f : FunctionTracker T) (objs objs' : T)
    (wrapper_fn driver_fn pointer : ℕ) (wrapper_str driver_str str1 str2 : List ℕ)
    (started : f.objs ≡ some objs) (free : f.global_lock_acquired ≡ 0)
    (absent : h.search objs driver_fn ≡ none) where
  abbrev value : FunctionValue
  value = function_value driver_fn wrapper_fn driver_str wrapper_str [] []

  abbrev converted_value : FunctionValue
  converted_value = function_value driver_fn wrapper_fn driver_str wrapper_str str1 str2

  -- what registering and converting leave
  abbrev pub converted : FunctionTracker T
  converted = record f {
    global_lock_acquired = 0;
    objs = some (h.store objs' driver_fn converted_value);
  }

  convert-register :
      h.insert objs driver_fn value ≡ some objs'
      → (ltb pointer 0xC0000000 || ltb 0xFFFF0000 pointer) ≡ false
      → (gen_register_one wrapper_fn driver_fn wrapper_str driver_str
            >> gen_convert_fn pointer driver_fn str1 str2)
          f
        ≡ ok (tt, converted)
  unfolding gen_register_one gen_convert_fn
  convert-register inserted plausible =
      let found = h.search-insert objs driver_fn driver_fn value objs' absent inserted in
      ground arith

  -- what a lookup of a name returns, in the state afterwards
  abbrev pub answer : (List ℕ → ℕ) → ℕ → List ℕ → Result {0} (ℕ × FunctionTracker T)
  answer symbol_lookup default_check name =
      if ltb (length name) buffer_size
      then ok (if symbol_lookup name == 0 then default_check else symbol_lookup name, converted)
      else stop out_of_bounds

  lookup-converted :
      (symbol_lookup : List ℕ → ℕ) (default_check : ℕ) (wrapper_type : List ℕ)
      → h.insert objs driver_fn value ≡ some objs'
      → is_wrapper wrapper_type ≡ true
      → gen_lookup symbol_lookup default_check wrapper_type driver_fn converted ≡ (
          if not (is_empty str1) && not (is_empty str2)
          then answer symbol_lookup default_check (str1 ++ underscore ++ str2 ++ mjrcheck)
          else if is_empty str1 && is_empty str2
          then answer symbol_lookup default_check (driver_str ++ mjrcheck)
          else stop assertion)
  unfolding gen_lookup
  lookup-converted symbol_lookup default_check wrapper_type inserted known =
      let found =
        h.search-insert objs driver_fn driver_fn value objs' absent inserted
        ∙ chosen _ (==-refl driver_fn) in
      let stored =
        h.search-store objs' driver_fn driver_fn converted_value value found
        ∙ chosen _ (==-refl driver_fn) in
      rw (stored, known) (ground arith)

  -- A function that was not known, registered and then converted with two strings by a plausible
  -- pointer, has for a wrapper type that starts with 0 or 1 as its check routine the symbol that is
  -- named by the two strings if both are there, and by the function's own name if neither is, or the
  -- default one if the kernel has no such symbol. If one string is missing the path ends by an
  -- assertion, and a name of more than 127 characters overruns its buffer. Afterwards the framework's
  -- lock is free.
  pub lookup-convert-register :
      (symbol_lookup : List ℕ → ℕ) (default_check : ℕ) (wrapper_type : List ℕ)
      → h.insert objs driver_fn value ≡ some objs'
      → (ltb pointer 0xC0000000 || ltb 0xFFFF0000 pointer) ≡ false
      → is_wrapper wrapper_type ≡ true
      → (gen_register_one wrapper_fn driver_fn wrapper_str driver_str
            >> gen_convert_fn pointer driver_fn str1 str2
            >> gen_lookup symbol_lookup default_check wrapper_type driver_fn)
          f
        ≡ (if not (is_empty str1) && not (is_empty str2)
            then answer symbol_lookup default_check (str1 ++ underscore ++ str2 ++ mjrcheck)
            else if is_empty str1 && is_empty str2
            then answer symbol_lookup default_check (driver_str ++ mjrcheck)
            else stop assertion)
  lookup-convert-register symbol_lookup default_check wrapper_type inserted plausible known =
      ap (λ r. continue r (λ _. gen_lookup symbol_lookup default_check wrapper_type driver_fn))
        (convert-register inserted plausible)
      ∙ lookup-converted symbol_lookup default_check wrapper_type inserted known
