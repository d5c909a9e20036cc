-- ===== src/EntryPoints/Table.antt =====
-- The numbers of the ethtool test cases against the array of functions, gtf/testing_ep.c.
use driver_optimizer.Prelude.{
  ℕ, zero, suc, ◌+◌, ◌≤◌, ◌<◌, ◌≡◌, ◌≢◌, refl, sym, ap, ◌∙◌, Bool, true, false, Option, none, some,
  List, [], ◌∷◌, ◌++◌, length, replicate, get_elem?, get_elem?-lt, ℤ, pos, arith,
}
use driver_optimizer.Action.{
  Action, Result, Stop, ok, stop, continue, halt, test_complete, null_dereference, ◌>>=◌, ◌>>◌,
}
use driver_optimizer.EntryPoints.{
  test_case_i2c_pm_end, test_case_pci_pm_end, test_case_ethtool_end, TestFunction, TestCategory,
  test_ethtool, test_pci_pm, test_i2c_pm, test_snd, other_category, EpState, Testing, initialize_ep,
  ep_test, ethtool_functions, ep_test_generic,
}

module _ {A : Type 0} where
  padded_right :
      (xs : List (Option A)) (k i : ℕ)
      → length xs ≤ i
      → i < length xs + k
      → get_elem? (xs ++ replicate k none) i ≡ some none
  padded_right [] zero i low high = absurd (omega arith)
  padded_right [] (suc k) zero low high = refl
  padded_right [] (suc k) (suc i) low high = padded_right [] k i (omega arith) (omega arith)
  padded_right (x ∷ xs) k zero low high = absurd (omega arith)
  padded_right (x ∷ xs) k (suc i) low high = padded_right xs k i (omega arith) (omega arith)

  padded_left :
      (xs ys : List A) (i : ℕ) (a : A) → get_elem? xs i ≡ some a → get_elem? (xs ++ ys) i ≡ some a
  padded_left [] ys i a e = absurd cc
  padded_left (x ∷ xs) ys zero a e = e
  padded_left (x ∷ xs) ys (suc i) a e = padded_left xs ys i a e

-- the state that a run leaves
abbrev returned : EpState → Result {0} (Unit {0} × EpState) → EpState
returned e (ok (u, t)) = t
returned e (stop x) = e

-- An action that does not return.
record Ends {S A : Type 0} (m : Action S A) : Type 0 where
  at : (s : S) (r : A × S) → m s ≢ ok r

module _ {S A : Type 0} where
  Ends-halt : (x : Stop) → Ends {S = S} {A = A} (halt x)
  Ends-halt x = record { at = λ s r e. cc }

module _ {S A B : Type 0} where
  Ends-bind : (m : Action S A) (f : A → Action S B) → ((a : A) → Ends (f a)) → Ends (m >>= f)
  Ends-bind m f g = record { at = λ s r. later (m s) r }
    where
      later : (x : Result {0} (A × S)) (r : B × S) → continue x f ≢ ok r
      later (ok (a, t)) r = (g a).at t r
      later (stop x) r = λ e. cc

ruleset ending = (Ends-halt, Ends-bind)

module _ {T : Type 0} (call : TestFunction → Action (Testing T) Unit) where
  -- device interrupts switched off
  abbrev pub silenced : Testing T → Testing T
  silenced s = record s { global_state = record s.global_state { device_irq_disabled = 1 } }

  array_known :
      (e : EpState) (s : Testing T)
      → initialize_ep e ≡ ok (tt, s.ep_state)
      → s.ep_state.ethtool_fn_array ≡ ethtool_functions ++ replicate 957 none
  unfolding initialize_ep
  array_known e s started = sym (ap (λ r. (returned e r).ethtool_fn_array) started)

  run_element :
      (s : Testing T) (n : ℕ) (run_test : ℤ) (element : Option TestFunction)
      → 0 < n
      → n < 46
      → get_elem? s.ep_state.ethtool_fn_array n ≡ some element
      → ep_test call test_ethtool (pos n) run_test s ≡ (elim element [
        | none ↦ stop null_dereference
        | some fn ↦ (call fn >> halt test_complete) (silenced s)
      ])
  unfolding ep_test
  run_element s n run_test none low high e = ground (arith, e)
  run_element s n run_test (some fn) low high e = ground (arith, e)

  ep_test_generic-Ends :
      (fn_id : ℤ) (begin end : ℕ) (fn_array : List (Option TestFunction))
      (disable_interrupts : Bool) (run_test : ℤ)
      → Ends (ep_test_generic call fn_id begin end fn_array disable_interrupts run_test)
  unfolding ep_test_generic
  ep_test_generic-Ends fn_id begin end fn_array disable_interrupts run_test = search ending depth 8

  -- A test never returns: whatever the category, the number, the path that S2E chooses and the state,
  -- and whatever the test functions do, the path ends.
  pub ep_test_ends :
      (category : TestCategory) (fn_id run_test : ℤ) (s : Testing T) (r : Unit × Testing T)
      → ep_test call category fn_id run_test s ≢ ok r
  unfolding ep_test
  ep_test_ends test_ethtool fn_id run_test s r =
      (ep_test_generic-Ends fn_id 0 test_case_ethtool_end s.ep_state.ethtool_fn_array true
          run_test).at
        s r
  ep_test_ends test_pci_pm fn_id run_test s r =
      (ep_test_generic-Ends fn_id 0 test_case_pci_pm_end s.ep_state.pci_pm_fn_array false
          run_test).at
        s r
  ep_test_ends test_i2c_pm fn_id run_test s r =
      (ep_test_generic-Ends fn_id 0 test_case_i2c_pm_end s.ep_state.i2c_pm_fn_array false
          run_test).at
        s r
  ep_test_ends test_snd fn_id run_test s r = λ e. cc
  ep_test_ends other_category fn_id run_test s r = λ e. cc

  -- Once the arrays are filled, an ethtool test case with a number of the array other than 0, which
  -- lets S2E choose a test, runs the function in that place, with the interrupts of the device
  -- switched off, and then the test is complete if the function returns.
  pub ethtool_test :
      (e : EpState) (s : Testing T) (n : ℕ) (run_test : ℤ) (fn : TestFunction)
      → initialize_ep e ≡ ok (tt, s.ep_state)
      → 0 < n
      → get_elem? ethtool_functions n ≡ some (some fn)
      → ep_test call test_ethtool (pos n) run_test s ≡ (call fn >> halt test_complete) (silenced s)
  ethtool_test e s n run_test fn started low known =
      run_element s n run_test (some fn) low
        (let inside = get_elem?-lt ethtool_functions n (some fn) known in omega arith)
        (ap (λ fs. get_elem? fs n) (array_known e s started)
          ∙ padded_left ethtool_functions (replicate 957 none) n (some fn) known)

  -- The three numbers 43, 44 and 45 are in the range of ethtool test cases and have no function in
  -- the array, so the test calls through a NULL pointer.
  pub missing_ethtool_test :
      (e : EpState) (s : Testing T) (n : ℕ) (run_test : ℤ)
      → initialize_ep e ≡ ok (tt, s.ep_state)
      → 43 ≤ n
      → n < 46
      → ep_test call test_ethtool (pos n) run_test s ≡ stop null_dereference
  missing_ethtool_test e s n run_test started low high =
      run_element s n run_test none (omega arith) high (
        ap (λ fs. get_elem? fs n) (array_known e s started)
        ∙ padded_right ethtool_functions 957 n low (omega arith))
