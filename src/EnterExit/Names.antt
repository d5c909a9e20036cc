-- ===== src/EnterExit/Names.antt =====
-- The array of names in gtf/enter_exit.c, and the list of the functions that are running, which it
-- holds at its start.
use driver_optimizer.Prelude.{
  ℕ, zero, suc, ◌≤◌, ◌<◌, ◌≡◌, refl, sym, ap, ◌∙◌, Bool, true, false, Option, none, some, List, [],
  ◌∷◌, ◌++◌, length, set, replicate, arith,
}
use driver_optimizer.EnterExit.{same_string, later, last_named, shift_back}

-- the functions that are running, the outermost first
abbrev pub Running : Type 0
Running = List (List ℕ)

-- an array of the given size with the names at its start, and NULL behind them
abbrev pub padded : ℕ → Running → List (Option (List ℕ))
padded n [] = replicate n none
padded zero (x ∷ xs) = []
padded (suc n) (x ∷ xs) = some x ∷ padded n xs

-- the list without the last element that is the name
abbrev pub left_before : List ℕ → Bool → List ℕ → Running → Option Running → Option Running
left_before fn here x xs (some ys) = some (x ∷ ys)
left_before fn true x xs none = some xs
left_before fn false x xs none = none

abbrev pub left : List ℕ → Running → Option Running
left fn [] = none
left fn (x ∷ xs) = left_before fn (same_string x fn) x xs (left fn xs)

pub length-padded : (n : ℕ) (xs : Running) → length xs ≤ n → length (padded n xs) ≡ n
length-padded zero [] h = refl
length-padded (suc n) [] h = ap suc (length-padded n [] (omega arith))
length-padded zero (x ∷ xs) h = absurd (omega arith)
length-padded (suc n) (x ∷ xs) h = ap suc (length-padded n xs (omega arith))

pub set-padded :
    (n : ℕ) (xs : Running) (fn : List ℕ)
    → length xs < n
    → set (padded n xs) (length xs) (some fn) ≡ padded n (xs ++ (fn ∷ []))
set-padded zero xs fn h = absurd (omega arith)
set-padded (suc n) [] fn h = refl
set-padded (suc n) (x ∷ xs) fn h = ap (λ l. some x ∷ l) (set-padded n xs fn (omega arith))

pub length-appended : (xs : Running) (fn : List ℕ) → length (xs ++ (fn ∷ [])) ≡ suc (length xs)
length-appended [] fn = refl
length-appended (x ∷ xs) fn = ap suc (length-appended xs fn)

padded_further :
    (n : ℕ) (xs : Running) → length xs ≤ n → padded n xs ++ (none ∷ []) ≡ padded (suc n) xs
padded_further zero [] h = refl
padded_further (suc n) [] h = ap (λ l. none ∷ l) (padded_further n [] (omega arith))
padded_further zero (x ∷ xs) h = absurd (omega arith)
padded_further (suc n) (x ∷ xs) h = ap (λ l. some x ∷ l) (padded_further n xs (omega arith))

-- what the search finds in an array, and what the list is without the name
abbrev pub Popped : ℕ → List (Option (List ℕ)) → Option {0} ℕ → Option {0} Running → Type 0
Popped n elements none none = Unit {0}
Popped n elements (some i) (some ys) = shift_back i elements ≡ padded n ys
Popped n elements none (some ys) = ⊥
Popped n elements (some i) none = ⊥

nothing_named : (fn : List ℕ) (n : ℕ) → last_named fn (replicate n none) ≡ none
unfolding last_named
nothing_named fn zero = refl
nothing_named fn (suc n) = rw (nothing_named fn n) refl

pub last_named-Popped :
    (fn : List ℕ) (n : ℕ) (xs : Running)
    → length xs ≤ n
    → Popped n (padded n xs) (last_named fn (padded n xs)) (left fn xs)
unfolding last_named shift_back
last_named-Popped fn n [] h = rw (nothing_named fn n) tt
last_named-Popped fn zero (x ∷ xs) h = absurd (omega arith)
last_named-Popped fn (suc n) (x ∷ xs) h =
    further (last_named fn (padded n xs)) (left fn xs) (same_string x fn)
      (last_named-Popped fn n xs (omega arith))
  where
    further :
        (o : Option {0} ℕ) (l : Option {0} Running) (here : Bool)
        → Popped n (padded n xs) o l
        → Popped (suc n) (some x ∷ padded n xs) (later o here) (left_before fn here x xs l)
    further none none true p = padded_further n xs (omega arith)
    further none none false p = tt
    further (some i) (some ys) here p = ap (λ l. some x ∷ l) p
    further none (some ys) here p = absurd p
    further (some i) none here p = absurd p

pub length-left :
    (fn : List ℕ) (xs ys : Running) → left fn xs ≡ some ys → suc (length ys) ≡ length xs
length-left fn [] ys h = absurd cc
length-left fn (x ∷ xs) ys h = shorter (left fn xs) (same_string x fn) ys (length-left fn xs) h
  where
    shorter :
        (l : Option {0} Running) (here : Bool) (ys : Running)
        → ((zs : Running) → l ≡ some zs → suc (length zs) ≡ length xs)
        → left_before fn here x xs l ≡ some ys
        → suc (length ys) ≡ suc (length xs)
    shorter none true ys ih h = let same : xs ≡ ys = cc in ap (λ l. suc (length l)) (sym same)
    shorter none false ys ih h = absurd cc
    shorter (some zs) here ys ih h =
        let same : x ∷ zs ≡ ys = cc in ap (λ l. suc (length l)) (sym same) ∙ ap suc (ih zs refl)
