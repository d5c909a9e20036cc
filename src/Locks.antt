-- ===== src/Locks.antt =====
-- The locking protocol of gtf/test_state.c: which lock is held in which way, and what a held lock
-- lets the kernel do. `fn` is kept where it is stored in a new entry.
pub mod Counting
pub mod Holder
pub mod Outcome
pub mod Recursion
pub mod Discipline
pub mod Atomic
use driver_optimizer.Prelude.{
  ℕ, zero, suc, ◌+◌, ◌*◌, ◌%◌, Bool, true, false, not, ◌||◌, ◌&&◌, Option, none, some, List, [],
  ◌∷◌, ltb, leb, ◌==◌, is_none, if◌then◌else◌, bit_and, ℤ, pos, negsuc, pos_part, neg_part, ◌==ℤ◌,
  minus_one,
}
use driver_optimizer.Action.{
  Action, assertion, out_of_fuel, null_dereference, ◌>>=◌, ◌>>◌, pure, halt, get, put, tfassert,
  the, read_at, write_at,
}
use driver_optimizer.Hashtable.{Hashtable}
use driver_optimizer.State.{
  HValue, GlobalState, ulong_max, num_lock_types, BlockingContext, blocking_yes, blocking_no,
  LockType, lock_undefined, spin_lock, spin_lock_bh, spin_lock_irqsave, spin_lock_irq, mutex, rwsem,
  rwlock, generic_lock, lock_index, origin_spin_lock, origin_rwlock, origin_mutex, origin_rwsem,
  may_block,
}
use driver_optimizer.KernelState.{push_blocking_state, pop_blocking_state, kernel_blocking_state}
use driver_optimizer.ObjectTracker.{objs_value, objs_search, objs_remove, objs_insert}

-- `c += add_this` on a `char`, kept as a byte; 0 - 1 is 255
abbrev pub add_char : ℕ → ℤ → ℕ
add_char c add_this = (c + pos_part add_this + 255 * neg_part add_this) % 256

-- -add_this
abbrev pub opposite : ℤ → ℤ
opposite (pos zero) = pos zero
opposite (pos (suc n)) = negsuc n
opposite (negsuc n) = pos (suc n)

abbrev pub is_generic : LockType → Bool
is_generic lock_type = lock_index lock_type == lock_index generic_lock

-- how many of the states are 1
abbrev pub locked : List ℕ → ℕ
locked [] = 0
locked (state ∷ states) = if state == 1 then suc (locked states) else locked states

-- each state is 0 or 1
abbrev pub are_flags : List ℕ → Bool
are_flags [] = true
are_flags (state ∷ states) = (state == 0 || state == 1) && are_flags states

-- the loop of verify_lock_state, with `found_locked` so far
unfoldable pub verify_from : {S : Type 0} → List ℕ → ℕ → Action S ℕ
verify_from [] found_locked = pure found_locked
verify_from (state ∷ states) found_locked =
    let rest = verify_from states (if state == 1 then found_locked + 1 else found_locked) in
    tfassert (state == 0 || state == 1) >> rest

unfoldable pub verify_lock_state : {S : Type 0} → HValue → Action S Unit
unfolding verify_from
verify_lock_state value = do
  found_locked ← verify_from value.lock_state 0
  tfassert (found_locked == 0 || found_locked == 1)

abbrev pub all_zero : List ℕ → Bool
all_zero [] = true
all_zero (state ∷ states) = state == 0 && all_zero states

-- hash_check_lock: no lock type is held
abbrev pub none_held : HValue → Bool
none_held value = all_zero value.lock_state

-- add_this > 0
abbrev pub is_positive : ℤ → Bool
is_positive (pos n) = not (n == 0)
is_positive (negsuc n) = false

-- the tests on the origin of the two kinds of lock
abbrev pub spins : ℕ → Bool
spins origin = not (bit_and origin origin_spin_lock == 0) || not (bit_and origin origin_rwlock == 0)

abbrev pub sleeps : ℕ → Bool
sleeps origin = not (bit_and origin origin_mutex == 0) || not (bit_and origin origin_rwsem == 0)

module _ {T : Type 0} where
  abbrev spinning : ℕ → ℤ → Action (GlobalState T) Unit
  spinning origin add_this = do
    tfassert (spins origin)
    if is_positive add_this then push_blocking_state blocking_no else pop_blocking_state

  abbrev sleeping : ℕ → ℤ → Action (GlobalState T) Unit
  sleeping origin add_this = do
    tfassert (sleeps origin)
    if is_positive add_this
        then (do
          context ← kernel_blocking_state
          tfassert (may_block context)
          push_blocking_state blocking_yes)
        else pop_blocking_state

  unfoldable pub lock_kernel_state : ℕ → LockType → ℤ → Action (GlobalState T) Unit
  lock_kernel_state origin lock_undefined add_this = tfassert false
  lock_kernel_state origin spin_lock add_this = spinning origin add_this
  lock_kernel_state origin spin_lock_bh add_this = spinning origin add_this
  lock_kernel_state origin spin_lock_irqsave add_this = spinning origin add_this
  lock_kernel_state origin spin_lock_irq add_this = spinning origin add_this
  lock_kernel_state origin rwlock add_this = spinning origin add_this
  lock_kernel_state origin mutex add_this = sleeping origin add_this
  lock_kernel_state origin rwsem add_this = sleeping origin add_this
  lock_kernel_state origin generic_lock add_this = pure tt

module _ {T : Type 0} ⦃h : Hashtable T HValue⦄ where
  abbrev pub known_value : List ℕ → ℕ → ℕ → Option HValue → Action (GlobalState T) HValue
  known_value fn lock origin (some existing_value) = do
    removed ← objs_remove lock
    pure existing_value
  known_value fn lock origin none = objs_value fn origin ulong_max 0

  unfoldable pub generic_lock_allocator : List ℕ → ℤ → ℕ → ℕ → Action (GlobalState T) Unit
  unfolding objs_search objs_remove objs_insert objs_value
  generic_lock_allocator fn prepost lock origin =
      if prepost ==ℤ pos 0
      then (do
        tfassert (not (lock == 0))
        existing_value ← objs_search lock
        value ← known_value fn lock origin existing_value
        objs_insert lock value
        verified ← objs_search lock
        tfassert (not (is_none verified)))
      else if prepost ==ℤ pos 1
      then pure tt
      else tfassert false

  -- the branch of generic_lock_state on what its search found
  abbrev pub found_or_again :
      Action (GlobalState T) Unit
      → (HValue → Action (GlobalState T) Unit)
      → Option HValue
      → Action (GlobalState T) Unit
  found_or_again again change none = again
  found_or_again again change (some value) = change value

  unfoldable pub verify_all_locks_released : Action (GlobalState T) Unit
  verify_all_locks_released = do s ← get; tfassert (h.all_values none_held s.objs)

  -- `value->lock_state[lock_type] += add_this`; the entry that `value` points to is written back
  -- by `store_value` once all its changes are made.
  unfoldable pub bump : LockType → ℤ → HValue → Action (GlobalState T) HValue
  bump lock_type add_this value = do
    state ← read_at value.lock_state (lock_index lock_type)
    states ← write_at value.lock_state (lock_index lock_type) (add_char state add_this)
    pure (record value { lock_state = states })

  unfoldable pub store_value : ℕ → HValue → Action (GlobalState T) Unit
  store_value lock value = do s ← get; put (record s { objs = h.store s.objs lock value })

  -- A lock held as GENERIC_LOCK is first turned into one held as `lock_type`.
  unfoldable pub transfer : Bool → LockType → ℤ → HValue → Action (GlobalState T) HValue
  unfolding bump
  transfer false lock_type add_this value = pure value
  transfer true lock_type add_this value = do
    value' ← bump generic_lock add_this value
    bump lock_type (opposite add_this) value'

  -- an unlock, on the precondition branch
  unfoldable pub unlock : ℕ → ℕ → LockType → ℤ → HValue → Action (GlobalState T) Unit
  unfolding bump transfer store_value verify_lock_state lock_kernel_state
  unlock lock origin lock_type add_this value = do
    tfassert (not (is_generic lock_type))
    generic ← read_at value.lock_state (lock_index generic_lock)
    let unlock_generic = generic == 1
    value ← transfer unlock_generic lock_type add_this value
    value ← bump lock_type add_this value
    state ← read_at value.lock_state (lock_index lock_type)
    store_value lock value
    tfassert (state == 0)
    verify_lock_state value
    lock_kernel_state origin (if unlock_generic then generic_lock else lock_type) add_this

  -- a lock, on the postcondition branch
  unfoldable pub acquire : ℕ → ℕ → LockType → ℤ → HValue → Action (GlobalState T) Unit
  unfolding bump store_value verify_lock_state lock_kernel_state
  acquire lock origin lock_type add_this value = do
    value ← bump lock_type add_this value
    state ← read_at value.lock_state (lock_index lock_type)
    store_value lock value
    tfassert (state == 1)
    verify_lock_state value
    lock_kernel_state origin lock_type add_this

  -- what generic_lock_state does with a tracked lock
  unfoldable pub change_lock : ℤ → ℕ → ℕ → LockType → ℤ → HValue → Action (GlobalState T) Unit
  unfolding unlock acquire
  change_lock prepost lock origin lock_type add_this value =
      tfassert (ltb 0x1000 lock)
      >> (if prepost ==ℤ pos 0
          then (if add_this ==ℤ minus_one
              then unlock lock origin lock_type add_this value
              else if add_this ==ℤ pos 1
              then pure tt
              else tfassert false)
          else if prepost ==ℤ pos 1
          then (if add_this ==ℤ minus_one
              then pure tt
              else if add_this ==ℤ pos 1
              then acquire lock origin lock_type add_this value
              else tfassert false)
          else tfassert false)

  -- generic_lock_state calls itself where the lock is not tracked; the first argument bounds how
  -- often.
  unfoldable pub generic_lock_state :
      ℕ → List ℕ → ℤ → ℕ → ℕ → LockType → ℤ → Action (GlobalState T) Unit
  unfolding objs_search generic_lock_allocator change_lock
  generic_lock_state zero fn prepost lock origin lock_type add_this = halt out_of_fuel
  generic_lock_state (suc fuel) fn prepost lock origin lock_type add_this = do
    let again = generic_lock_state fuel fn prepost lock origin lock_type add_this
    tfassert (add_this ==ℤ minus_one || add_this ==ℤ pos 1)
    value ← objs_search lock
    found_or_again (generic_lock_allocator fn prepost lock origin >> again)
        (change_lock prepost lock origin lock_type add_this) value
