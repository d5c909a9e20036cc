-- ===== src/Hashtable.antt =====
-- What the framework relies on of the hash table in gtf/hashtable/ (C. Clark's library), through
-- the calls that it makes. Its tables map an unsigned word, the key's one field, to a value.
-- `T` stands for the tables whose keys are distinct: hashtable.h leaves duplicates undefined, and
-- the framework inserts only where a search has found nothing.
pub mod Assoc
use driver_optimizer.Prelude.{ℕ, ◌≡◌, Bool, true, ◌↔◌, Option, none, some, ◌==◌, if◌then◌else◌}
use mathlib.Core.Option as OptionFns

pub record Hashtable (T V : Type 0) : Type 0 where
  -- create_hashtable
  pub create : T
  -- hashtable_search; `none` is NULL
  pub search : T → ℕ → Option V
  -- hashtable_insert; `none` stands for the result 0, out of memory
  pub insert : T → ℕ → V → Option T
  -- hashtable_remove, for what it leaves; what it returns is what `search` finds
  pub remove : T → ℕ → T
  -- a write through the pointer that `search` returned
  pub store : T → ℕ → V → T
  -- hashtable_enumerate, with a function that rewrites each value
  pub map_values : (V → V) → T → T
  -- hashtable_enumerate, with a function that asserts something of each value
  pub all_values : (V → Bool) → T → Bool
  pub search-create : (k : ℕ) → search create k ≡ none
  pub search-insert :
      (t : T) (k j : ℕ) (v : V) (t' : T)
      → search t k ≡ none
      → insert t k v ≡ some t'
      → search t' j ≡ (if k == j then some v else search t j)
  pub search-remove :
      (t : T) (k j : ℕ) → search (remove t k) j ≡ (if k == j then none else search t j)
  pub search-store :
      (t : T) (k j : ℕ) (v w : V)
      → search t k ≡ some w
      → search (store t k v) j ≡ (if k == j then some v else search t j)
  pub search-map_values :
      (f : V → V) (t : T) (k : ℕ) → search (map_values f t) k ≡ OptionFns.map f (search t k)
  pub all_values_iff :
      (p : V → Bool) (t : T)
      → (all_values p t ≡ true) ↔ ((k : ℕ) (v : V) → search t k ≡ some v → p v ≡ true)
