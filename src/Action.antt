-- ===== src/Action.antt =====
-- How an operation of the framework runs: it reads and writes a state, and may stop the path.
-- `tfassert`, `tfassert_detail` and `assert` (gtf/globals.h) end in `s2e_kill_state`, after which
-- S2E explores the path no further, so nothing is returned and the state is of no more interest.
pub mod Terminates
use driver_optimizer.Prelude.{
  ℕ, ◌≡◌, refl, Bool, true, false, Option, none, some, List, length, get_elem?, set, ltb,
  if◌then◌else◌,
}

-- Why a path ends. `assertion` is `s2e_kill_state (0, 1, ..)` of the macros in gtf/globals.h;
-- `test_complete` and `extra_state` are the two calls in ep_test_generic and `path_killed` is a call
-- in gtf/enter_exit.c; `kernel_panic` is `panic`; the others are accesses that C leaves undefined,
-- and `out_of_fuel` a recursion that was cut off.
pub data Stop : Type 0 where
  assertion test_complete extra_state path_killed kernel_panic null_dereference : Stop
  out_of_bounds out_of_fuel : Stop

pub data Result {ℓ} (A : Type ℓ) : Type ℓ where
  ok : A → Result A
  stop : Stop → Result A

abbrev pub Action : Type 0 → Type 0 → Type 0
Action S A = S → Result (A × S)

abbrev pub pure : {S A : Type 0} → A → Action S A
pure a s = ok (a, s)

abbrev pub halt : {S A : Type 0} → Stop → Action S A
halt e s = stop e

abbrev pub get : {S : Type 0} → Action S S
get s = ok (s, s)

abbrev pub put : {S : Type 0} → S → Action S Unit
put s _ = ok (tt, s)

abbrev pub modify : {S : Type 0} → (S → S) → Action S Unit
modify f s = ok (tt, f s)

abbrev pub continue : {S A B : Type 0} → Result (A × S) → (A → Action S B) → Result (B × S)
continue (ok (a, s)) f = f a s
continue (stop e) f = stop e

infixl 5 ◌>>=◌ ◌>>◌
abbrev pub ◌>>=◌ : {S A B : Type 0} → Action S A → (A → Action S B) → Action S B
◌>>=◌ m f s = continue (m s) f

abbrev pub ◌>>◌ : {S B : Type 0} → Action S Unit → Action S B → Action S B
m >> k = m >>= λ _. k

-- The three macros of gtf/globals.h: they differ in what they print.
abbrev pub tfassert : {S : Type 0} → Bool → Action S Unit
tfassert true s = ok (tt, s)
tfassert false s = stop assertion

abbrev pub rejoin : {S P A : Type 0} → (P → S → S) → S → Result (A × P) → Result (A × S)
rejoin update s (ok (a, p)) = ok (a, update p s)
rejoin update s (stop e) = stop e

-- An action on one part of a state, run on the whole.
abbrev pub zoom : {S P A : Type 0} → (S → P) → (P → S → S) → Action P A → Action S A
zoom view update m s = rejoin update s (m (view s))

-- Inversion of a run that returns, for proofs where the parts stay shut.
pub >>=-eq-ok :
    {S A B : Type 0} (m : Action S A) (f : A → Action S B) (s : S) {r : B × S}
    → (m >>= f) s ≡ ok r
    → (a : A) × (t : S) × (m s ≡ ok (a, t)) × (f a t ≡ ok r)
>>=-eq-ok {S} {A} {B} m f s {r} h = cases (m s) h
  where
    cases :
        (x : Result (A × S))
        → continue x f ≡ ok r
        → (a : A) × (t : S) × (x ≡ ok (a, t)) × (f a t ≡ ok r)
    cases (ok (a, t)) e = (a, t, refl, e)
    cases (stop e) p = cc

pub tfassert-eq-ok : {S : Type 0} (b : Bool) (s : S) {r : Unit × S} → tfassert b s ≡ ok r → b ≡ true
tfassert-eq-ok true s h = refl
tfassert-eq-ok false s h = cc

-- The value that should be there.
abbrev pub the : {S A : Type 0} → Stop → Option A → Action S A
the e none s = stop e
the e (some a) s = ok (a, s)

-- The element of a C array at an index, and a write to it.
abbrev pub read_at : {S A : Type 0} → List A → ℕ → Action S A
read_at xs i = the out_of_bounds (get_elem? xs i)

abbrev pub write_at : {S A : Type 0} → List A → ℕ → A → Action S (List A)
write_at xs i v s = if ltb i (length xs) then ok (set xs i v, s) else stop out_of_bounds

-- An assertion that holds is passed.
pub tfassert-true :
    {S A : Type 0} (b : Bool) (m : Action S A) (s : S) → b ≡ true → (tfassert b >> m) s ≡ m s
tfassert-true true m s e = refl
tfassert-true false m s e = cc

-- The order in which three actions are put together does not matter.
pub then_assoc :
    {S A : Type 0} (m n : Action S Unit) (k : Action S A) (s : S)
    → (m >> (n >> k)) s ≡ ((m >> n) >> k) s
then_assoc {S} {A} m n k s = cases (m s)
  where
    cases :
        (r : Result {0} (Unit {0} × S))
        → continue r (λ _. n >> k) ≡ continue (continue r (λ _. n)) (λ _. k)
    cases (ok (u, t)) = refl
    cases (stop e) = refl
