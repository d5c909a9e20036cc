-- ===== src/Action/Terminates.antt =====
-- Actions that end by themselves: no recursion in them is cut off. One rule for each way to build an
-- action.
use driver_optimizer.Prelude.{
  ℕ, ◌≢◌, Bool, true, false, Option, none, some, List, if◌then◌else◌, arith,
}
use driver_optimizer.Action.{
  Action, Result, ok, stop, out_of_fuel, assertion, out_of_bounds, null_dereference, pure, halt,
  get, put, tfassert, the, write_at, continue, ◌>>=◌,
}

pub record Terminates {S A : Type 0} (m : Action S A) : Type 0 where
  pub at : (s : S) → m s ≢ stop out_of_fuel

module _ {S A : Type 0} where
  pub Terminates-pure : (a : A) → Terminates {S = S} (pure a)
  Terminates-pure a = record { at = λ s e. cc }

  pub Terminates-the_bounds : (o : Option A) → Terminates {S = S} (the out_of_bounds o)
  Terminates-the_bounds none = record { at = λ s e. cc }
  Terminates-the_bounds (some a) = record { at = λ s e. cc }

  pub Terminates-the_assertion : (o : Option A) → Terminates {S = S} (the assertion o)
  Terminates-the_assertion none = record { at = λ s e. cc }
  Terminates-the_assertion (some a) = record { at = λ s e. cc }

  pub Terminates-out_of_bounds : Terminates {S = S} {A = A} (halt out_of_bounds)
  Terminates-out_of_bounds = record { at = λ s e. cc }

  pub Terminates-null_dereference : Terminates {S = S} {A = A} (halt null_dereference)
  Terminates-null_dereference = record { at = λ s e. cc }

  pub Terminates-if :
      (b : Bool) (m n : Action S A) → Terminates m → Terminates n → Terminates (if b then m else n)
  Terminates-if true m n f g = f
  Terminates-if false m n f g = g

  pub Terminates-write_at : (xs : List A) (i : ℕ) (v : A) → Terminates {S = S} (write_at xs i v)
  Terminates-write_at xs i v = record { at = λ s. ground arith }

module _ {S : Type 0} where
  pub Terminates-get : Terminates {S = S} get
  Terminates-get = record { at = λ s e. cc }

  pub Terminates-put : (s : S) → Terminates (put s)
  Terminates-put s = record { at = λ _ e. cc }

  pub Terminates-tfassert : (b : Bool) → Terminates {S = S} (tfassert b)
  Terminates-tfassert true = record { at = λ s e. cc }
  Terminates-tfassert false = record { at = λ s e. cc }

module _ {S A B : Type 0} where
  pub Terminates-bind :
      (m : Action S A) (f : A → Action S B)
      → Terminates m
      → ((a : A) → Terminates (f a))
      → Terminates (m >>= f)
  Terminates-bind m f g k = record { at = λ s. later (m s) (g.at s) }
    where
      later : (r : Result {0} (A × S)) → r ≢ stop out_of_fuel → continue r f ≢ stop out_of_fuel
      later (ok (a, t)) h = (k a).at t
      later (stop e) h = λ p. h (ground arith)

pub ruleset terminates_rules = (
  Terminates-pure, Terminates-the_bounds, Terminates-the_assertion, Terminates-out_of_bounds,
  Terminates-null_dereference, Terminates-if, Terminates-write_at, Terminates-get, Terminates-put,
  Terminates-tfassert, Terminates-bind,
)
