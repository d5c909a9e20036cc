-- ===== src/EnterExit.antt =====
-- The wrappers' entry and exit, gtf/enter_exit.c: a stack of the driver's functions and the kernel's
-- functions that are running, and the ends of paths when the driver returns to the kernel. What is
-- printed or dumped, the priorities of paths in S2E and the code under `#if 0` are left out.
pub mod Names
pub mod CallStack
pub mod Wrappers
pub mod Exits
pub mod MadeUp
use driver_optimizer.Prelude.{
  ◌-◌, ℕ, zero, suc, ◌+◌, ltb, leb, ◌==◌, not, ◌&&◌, ◌||◌, Bool, true, false, Option, none, some,
  List, [], ◌∷◌, ◌++◌, ℤ, pos, negsuc, minus_one, ◌==ℤ◌, pos_part, if◌then◌else◌,
}
use driver_optimizer.Action.{
  Action, path_killed, assertion, ◌>>=◌, ◌>>◌, pure, halt, get, put, modify, tfassert, the,
  write_at,
}
use driver_optimizer.Hashtable.{Hashtable}
use driver_optimizer.State.{HValue, Kernel}
use driver_optimizer.ObjectTracker.{reset_new_objects}
use driver_optimizer.GlobalLock.{acquire_global_lock, release_global_lock, assert_global_lock}
use driver_optimizer.Framework.{Framework, EnterExit, on_enter_exit, on_lock, on_global_state}
use driver_optimizer.Irq.Handlers.{call_interrupt_handlers}

-- enum symdrive_WRAPPER_TYPE and enum symdrive_DIRECTION
pub data WrapperType : Type 0 where
  stub_wrapper prepost_fn : WrapperType

pub data Direction : Type 0 where
  entrance exit : Direction

-- #define driver_call_stack_max 32
abbrev pub driver_call_stack_max : ℕ
driver_call_stack_max = 32

-- strcmp of the two is 0; a string is its bytes up to the terminating 0
abbrev pub same_string : List ℕ → List ℕ → Bool
same_string [] [] = true
same_string [] (_ ∷ _) = false
same_string (_ ∷ _) [] = false
same_string (x ∷ xs) (y ∷ ys) = x == y && same_string xs ys

-- driver_call_stack >= 0 && driver_call_stack < driver_call_stack_max
abbrev pub in_range : ℤ → Bool
in_range (pos n) = ltb n driver_call_stack_max
in_range (negsuc n) = false

-- `int` plus 1, and minus 1
abbrev pub increment : ℤ → ℤ
increment (pos n) = pos (suc n)
increment (negsuc zero) = pos 0
increment (negsuc (suc n)) = negsuc n

abbrev pub decrement : ℤ → ℤ
decrement (pos zero) = negsuc 0
decrement (pos (suc n)) = pos n
decrement (negsuc n) = negsuc (suc n)

-- An element is not NULL and is the string.
abbrev pub is_named : List ℕ → Option (List ℕ) → Bool
is_named fn none = false
is_named fn (some name) = same_string name fn

-- the position one further on
abbrev pub later : Option ℕ → Bool → Option ℕ
later (some i) here = some (suc i)
later none true = some 0
later none false = none

-- the loop of pop_driver_call_stack from the end of the array down to its start
unfoldable pub last_named : List ℕ → List (Option (List ℕ)) → Option ℕ
last_named fn [] = none
last_named fn (element ∷ elements) = later (last_named fn elements) (is_named fn element)

-- the inner loop, which moves every element after `i` one place down, and the write of NULL behind
unfoldable pub shift_back : ℕ → List (Option (List ℕ)) → List (Option (List ℕ))
shift_back i [] = []
shift_back zero (element ∷ elements) = elements ++ (none ∷ [])
shift_back (suc i) (element ∷ elements) = element ∷ shift_back i elements

-- driver_call_stack_str[driver_call_stack] = fn, where the index is in range
unfoldable pub push_driver_call_stack : List ℕ → Action EnterExit Unit
push_driver_call_stack fn = do
  s ← get
  strings ← write_at s.driver_call_stack_str (pos_part s.driver_call_stack) (some fn)
  put (record s { driver_call_stack_str = strings })

unfoldable pub pop_driver_call_stack : List ℕ → Action EnterExit Unit
unfolding last_named shift_back
pop_driver_call_stack fn = do
  s ← get
  i ← the assertion (last_named fn s.driver_call_stack_str)
  put (record s { driver_call_stack_str = shift_back i s.driver_call_stack_str })

abbrev pub move_call_stack : (ℤ → ℤ) → Action EnterExit Unit
move_call_stack step = modify (λ s. record s { driver_call_stack = step s.driver_call_stack })

-- `add` is 1 where the driver is entered, and -1 where it is left; a function of the kernel is on
-- the stack while the driver is left.
unfoldable pub change_call_stack : List ℕ → ℤ → WrapperType → Action EnterExit Unit
change_call_stack fn add stub_wrapper =
    if add ==ℤ minus_one
    then (do push_driver_call_stack fn; move_call_stack increment)
    else (do move_call_stack decrement; pop_driver_call_stack fn)
change_call_stack fn add prepost_fn =
    if add ==ℤ minus_one
    then (do move_call_stack decrement; pop_driver_call_stack fn)
    else (do push_driver_call_stack fn; move_call_stack increment)

abbrev pub stack_in_range : Action EnterExit Unit
stack_in_range = do s ← get; tfassert (in_range s.driver_call_stack)

module _ {T : Type 0} where
  -- driver_dump_stack, which is called last, tests that the lock of the framework is held.
  unfoldable pub manage_call_stack : List ℕ → ℤ → WrapperType → Action (Framework T) Unit
  unfolding assert_global_lock
  manage_call_stack fn add wrapper_type = do
    tfassert (add ==ℤ minus_one || add ==ℤ pos 1)
    on_enter_exit stack_in_range
    on_enter_exit (change_call_stack fn add wrapper_type)
    on_enter_exit stack_in_range
    on_lock assert_global_lock

  -- The last test is one stricter than that of manage_call_stack.
  unfoldable pub verify_invariants : List ℕ → ℤ → WrapperType → Action (Framework T) Unit
  unfolding manage_call_stack
  verify_invariants fn add wrapper_type = do
    manage_call_stack fn add wrapper_type
    f ← get
    tfassert (
        in_range f.enter_exit.driver_call_stack
        && not (f.enter_exit.driver_call_stack ==ℤ pos (driver_call_stack_max - 1)))

-- A path that returns to the kernel with success, where kernel results are symbolic.
unfoldable pub verify_symretval : Action EnterExit Unit
verify_symretval = do
  s ← get
  if not (s.bad_path == 0)
      then halt path_killed
      else if leb 1 (pos_part s.driver_call_stack)
      then pure tt
      else if s.g_sym_retval ==ℤ pos 1
      then halt path_killed
      else tfassert (s.g_sym_retval ==ℤ pos 2)

-- An annotation by hand, which is used once, turns the result into 0.
unfoldable pub annotated : ℕ → Action EnterExit ℕ
annotated retval = do
  s ← get
  if s.g_symdrive_annotations ==ℤ pos 0
      then pure retval
      else do put (record s { g_symdrive_annotations = pos 0 }); pure 0

unfoldable pub symdrive_annotation : ℤ → Action EnterExit Unit
symdrive_annotation flags = modify (λ s. record s { g_symdrive_annotations = flags })

module _ ⦃k : Kernel⦄ where
  -- the result of an entry point of the driver, which the framework sees as it returns
  abbrev pub verify_result : ℕ → Action EnterExit Unit
  verify_result retval = do
    retval' ← annotated retval
    if k.is_err retval' then halt path_killed else do
      s ← get
      if s.g_sym_retval ==ℤ pos 0
          then pure tt
          else if s.g_sym_retval ==ℤ pos 1 || s.g_sym_retval ==ℤ pos 2
          then verify_symretval
          else tfassert false

  -- A result counts where the driver's own function returns, and has one.
  abbrev pub verify_exit : WrapperType → Direction → Bool → ℕ → Action EnterExit Unit
  verify_exit prepost_fn exit true retval = verify_result retval
  verify_exit prepost_fn exit false retval = pure tt
  verify_exit prepost_fn entrance retval_valid retval = pure tt
  verify_exit stub_wrapper dir retval_valid retval = pure tt

  unfoldable pub verify_retval : WrapperType → Direction → Bool → ℕ → Action EnterExit Unit
  unfolding verify_symretval annotated
  verify_retval wrapper_type dir retval_valid retval = do
    s ← get
    tfassert (s.driver_call_stack ==ℤ pos 0)
    verify_exit wrapper_type dir retval_valid retval

-- `g_sym_starting_fn` is the function whose paths are all explored: its first entry sets the way in
-- which results are made symbolic, and its exit ends the path.
unfoldable pub handle_max_coverage : List ℕ → List ℕ → Direction → Action EnterExit Unit
handle_max_coverage g_sym_starting_fn fn entrance =
    if same_string fn g_sym_starting_fn
    then modify (λ s. record s { g_sym_retval = pos 1 })
    else pure tt
handle_max_coverage g_sym_starting_fn fn exit =
    if same_string fn g_sym_starting_fn then halt path_killed else pure tt
