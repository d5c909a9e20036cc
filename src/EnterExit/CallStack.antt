-- ===== src/EnterExit/CallStack.antt =====
-- The array of names in gtf/enter_exit.c against a list of the functions that are running.
use driver_optimizer.Prelude.{
  if◌then◌else◌, ltb, lt→ltb, minus_one, pos, ℤ, ℕ, suc, ◌≤◌, ◌≡◌, refl, ap, Bool, true, false,
  Option, none, some, List, [], ◌∷◌, ◌++◌, length, arith, Bool-cases, inl, inr,
}
use driver_optimizer.Action.{
  Action, Result, ok, stop, assertion, continue, pure, put, the, ◌>>◌, ◌>>=◌,
}
use driver_optimizer.Framework.{Framework, EnterExit}
use driver_optimizer.EnterExit.Names.{
  Running, padded, left, Popped, length-padded, set-padded, last_named-Popped, length-left,
  length-appended,
}
use driver_optimizer.EnterExit.{
  push_driver_call_stack, increment, decrement, pop_driver_call_stack, change_call_stack,
  stub_wrapper, driver_call_stack_max, prepost_fn, verify_invariants, WrapperType, Direction,
  entrance, exit, last_named, shift_back,
}

-- One call of verify_invariants: gen_enter_driver makes it with 1, and gen_exit_driver with -1.
pub record Crossing : Type 0 where
  pub fn : List ℕ
  pub dir : Direction
  pub wrapper_type : WrapperType

abbrev pub add_of : Direction → ℤ
add_of entrance = pos 1
add_of exit = minus_one

-- Does the function begin to run, or has it ended?
abbrev pub begins : Direction → WrapperType → Bool
begins entrance prepost_fn = true
begins exit stub_wrapper = true
begins entrance stub_wrapper = false
begins exit prepost_fn = false

-- What a crossing does to the list; `none` is more than 30 functions, or the end of a function that
-- is not running.
abbrev pub spec_cross : Crossing → Running → Option Running
spec_cross c xs =
    if begins c.dir c.wrapper_type
    then (if ltb (length xs) 30 then some (xs ++ (c.fn ∷ [])) else none)
    else left c.fn xs

abbrev pub spec_crossings : List Crossing → Option Running → Option Running
spec_crossings crossings none = none
spec_crossings [] (some xs) = some xs
spec_crossings (c ∷ crossings) (some xs) = spec_crossings crossings (spec_cross c xs)

module _ {T : Type 0} where
  abbrev pub with_running : Framework T → Running → Framework T
  with_running f xs = record f {
    enter_exit = record f.enter_exit {
      driver_call_stack = pos (length xs);
      driver_call_stack_str = padded driver_call_stack_max xs;
    };
  }

  abbrev pub outcome : Framework T → Option {0} Running → Result {0} (Unit {0} × Framework T)
  outcome f (some xs) = ok (tt, with_running f xs)
  outcome f none = stop assertion

  unfoldable pub cross : Crossing → Action (Framework T) Unit
  cross c = verify_invariants c.fn (add_of c.dir) c.wrapper_type

  unfoldable pub crossings : List Crossing → Action (Framework T) Unit
  crossings [] = pure tt
  crossings (c ∷ cs) = do cross c; crossings cs

module _ (e : EnterExit) where
  abbrev renamed : Running → EnterExit
  renamed ys = record e { driver_call_stack_str = padded driver_call_stack_max ys }

  abbrev counted : ℤ → EnterExit
  counted n = record e { driver_call_stack = n }

  abbrev popped : Option {0} Running → Result {0} (Unit {0} × EnterExit)
  popped none = stop assertion
  popped (some ys) = ok (tt, renamed ys)

module _ (e : EnterExit) (xs : Running) (fn : List ℕ) (room : length xs ≤ 30) where
  push_lem :
      e.driver_call_stack ≡ pos (length xs)
      → push_driver_call_stack fn (renamed e xs) ≡ ok (tt, renamed e (xs ++ (fn ∷ [])))
  unfolding push_driver_call_stack
  push_lem count =
      rw
        (
          count,
          length-padded driver_call_stack_max xs (omega arith),
          lt→ltb (length xs) 32 (omega arith),
          set-padded driver_call_stack_max xs fn (omega arith),
        )
        refl

  pop_lem : pop_driver_call_stack fn (renamed e xs) ≡ popped e (left fn xs)
  unfolding pop_driver_call_stack
  pop_lem =
      found (last_named fn (padded driver_call_stack_max xs)) (left fn xs)
        (last_named-Popped fn driver_call_stack_max xs (omega arith))
    where
      found :
          (o : Option {0} ℕ) (l : Option {0} Running)
          → Popped driver_call_stack_max (padded driver_call_stack_max xs) o l
          → (the {S = EnterExit} assertion o >>= (λ i. put (record e {
            driver_call_stack_str = shift_back i (padded driver_call_stack_max xs);
          })))
              (renamed e xs)
            ≡ popped e l
      found none none p = refl
      found (some i) (some ys) p =
          ap (λ strings. ok (tt, record e { driver_call_stack_str = strings })) p
      found none (some ys) p = absurd p
      found (some i) none p = absurd p

  change_begins :
      (dir : Direction) (wrapper_type : WrapperType)
      → begins dir wrapper_type ≡ true
      → e.driver_call_stack ≡ pos (length xs)
      → change_call_stack fn (add_of dir) wrapper_type (renamed e xs)
        ≡ ok (tt, counted (renamed e (xs ++ (fn ∷ []))) (increment e.driver_call_stack))
  unfolding change_call_stack
  change_begins entrance prepost_fn opens count = rw (push_lem count) refl
  change_begins exit stub_wrapper opens count = rw (push_lem count) refl
  change_begins entrance stub_wrapper opens count = absurd cc
  change_begins exit prepost_fn opens count = absurd cc

module _ (e : EnterExit) (xs : Running) (fn : List ℕ) (room : length xs ≤ 30) where
  abbrev fewer : EnterExit
  fewer = counted e (decrement e.driver_call_stack)

  change_ends :
      (dir : Direction) (wrapper_type : WrapperType)
      → begins dir wrapper_type ≡ false
      → change_call_stack fn (add_of dir) wrapper_type (renamed e xs) ≡ popped fewer (left fn xs)
  unfolding change_call_stack
  change_ends entrance prepost_fn opens = absurd cc
  change_ends exit stub_wrapper opens = absurd cc
  change_ends entrance stub_wrapper opens = pop_lem fewer xs fn room
  change_ends exit prepost_fn opens = pop_lem fewer xs fn room

module _ {T : Type 0} (f : Framework T) (fn : List ℕ) (held : f.global_lock_acquired ≡ 1)
    (dir : Direction) (wrapper_type : WrapperType) where
  pub begun :
      (xs : Running)
      → length xs ≤ 30
      → begins dir wrapper_type ≡ true
      → verify_invariants fn (add_of dir) wrapper_type (with_running f xs)
        ≡ outcome f (if ltb (length xs) 30 then some (xs ++ (fn ∷ [])) else none)
  unfolding verify_invariants
  begun xs room opens =
      let named =
        change_begins (with_running f xs).enter_exit xs fn room dir wrapper_type opens refl in
      let longer = length-appended xs fn in ground arith

  pub ended :
      (xs ys : Running)
      → length xs ≤ 30
      → begins dir wrapper_type ≡ false
      → left fn xs ≡ some ys
      → verify_invariants fn (add_of dir) wrapper_type (with_running f xs)
        ≡ ok (tt, with_running f ys)
  unfolding verify_invariants
  ended xs ys room closes l =
      let named = change_ends (with_running f xs).enter_exit xs fn room dir wrapper_type closes in
      let shorter = length-left fn xs ys l in ground arith

  not_running :
      (xs : Running)
      → length xs ≤ 30
      → begins dir wrapper_type ≡ false
      → left fn xs ≡ none
      → verify_invariants fn (add_of dir) wrapper_type (with_running f xs) ≡ stop assertion
  unfolding verify_invariants
  not_running xs room closes l =
      let named = change_ends (with_running f xs).enter_exit xs fn room dir wrapper_type closes in
      ground arith

-- what a crossing does to the length
length-spec_cross :
    (c : Crossing) (xs ys : Running) → length xs ≤ 30 → spec_cross c xs ≡ some ys → length ys ≤ 30
length-spec_cross c xs ys room e = elim (Bool-cases (begins c.dir c.wrapper_type)) [
  | inl opens ↦
      let e' : (if ltb (length xs) 30 then some (xs ++ (c.fn ∷ [])) else none) ≡ some ys =
        rw opens at e in
      let longer = length-appended xs c.fn in longer_list ys (xs ++ (c.fn ∷ [])) longer e'
  | inr closes ↦
      let e' : left c.fn xs ≡ some ys = rw closes at e in
      let shorter = length-left c.fn xs ys e' in omega arith
]
  where
    longer_list :
        (ys zs : Running)
        → length zs ≡ suc (length xs)
        → (if ltb (length xs) 30 then some zs else none) ≡ some ys
        → length ys ≤ 30
    longer_list ys zs longer e = ground arith

module _ {T : Type 0} (f : Framework T) (held : f.global_lock_acquired ≡ 1) where
  cross-implements :
      (c : Crossing) (xs : Running)
      → length xs ≤ 30
      → cross c (with_running f xs) ≡ outcome f (spec_cross c xs)
  unfolding cross
  cross-implements c xs room = elim (Bool-cases (begins c.dir c.wrapper_type)) [
    | inl opens ↦ rw opens (begun f c.fn held c.dir c.wrapper_type xs room opens)
    | inr closes ↦ rw closes (closing (left c.fn xs) refl closes)
  ]
    where
      closing :
          (l : Option {0} Running)
          → left c.fn xs ≡ l
          → begins c.dir c.wrapper_type ≡ false
          → verify_invariants c.fn (add_of c.dir) c.wrapper_type (with_running f xs) ≡ outcome f l
      closing none e closes = not_running f c.fn held c.dir c.wrapper_type xs room closes e
      closing (some ys) e closes = ended f c.fn held c.dir c.wrapper_type xs ys room closes e

  -- Over any history of entries into the driver and exits from it, seen under the lock of the
  -- framework, the array of names and its counter do what a list does: a function that begins to run
  -- is added at the end, and the last entry with its name is taken out where it ends. The path ends
  -- by an assertion exactly where a function is added to 30 others, or ends without running.
  pub crossings-implements-spec_crossings :
      (cs : List Crossing) (xs : Running)
      → length xs ≤ 30
      → crossings cs (with_running f xs) ≡ outcome f (spec_crossings cs (some xs))
  unfolding crossings
  crossings-implements-spec_crossings [] xs room = refl
  crossings-implements-spec_crossings (c ∷ cs) xs room =
      rw (cross-implements c xs room)
        (onward (spec_cross c xs) refl (λ ys. crossings-implements-spec_crossings cs ys))
    where
      onward :
          (o : Option {0} Running)
          → spec_cross c xs ≡ o
          → ((ys : Running)
              → length ys ≤ 30
              → crossings cs (with_running f ys) ≡ outcome f (spec_crossings cs (some ys)))
          → continue (outcome f o) (λ _. crossings cs) ≡ outcome f (spec_crossings cs o)
      onward none e ih = refl
      onward (some ys) e ih = ih ys (length-spec_cross c xs ys room e)
