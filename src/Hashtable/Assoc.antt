-- ===== src/Hashtable/Assoc.antt =====
-- An association list that meets the interface, so that its laws are seen to hold together and the
-- framework runs on concrete inputs. It is no model of the library's buckets.
use mathlib.Core.Option as OptionFns
use driver_optimizer.Prelude.{
  ℕ, ◌≡◌, refl, Bool, true, ◌&&◌, ◌↔◌, Option, none, some, List, [], ◌∷◌, arith, ◌==◌,
  if◌then◌else◌, ==_iff, Bool-cases, Option-cases, inl, inr,
}
use driver_optimizer.Hashtable.{Hashtable}

module _ {V : Type 0} where
  abbrev pub lookup : List (ℕ × V) → ℕ → Option V
  lookup [] k = none
  lookup ((j, v) ∷ l) k = if j == k then some v else lookup l k

  abbrev pub without : List (ℕ × V) → ℕ → List (ℕ × V)
  without [] k = []
  without ((j, v) ∷ l) k = let rest = without l k in if j == k then rest else (j, v) ∷ rest

  abbrev pub push : List (ℕ × V) → ℕ → V → Option (List (ℕ × V))
  push l k v = some ((k, v) ∷ l)

  abbrev pub write : List (ℕ × V) → ℕ → V → List (ℕ × V)
  write l k v = (k, v) ∷ without l k

  abbrev pub map_entries : (V → V) → List (ℕ × V) → List (ℕ × V)
  map_entries f [] = []
  map_entries f ((j, v) ∷ l) = (j, f v) ∷ map_entries f l

  abbrev pub holds_at : (V → Bool) → Option V → Bool
  holds_at p none = true
  holds_at p (some v) = p v

  -- For each key of `keys`, what a search in `l` finds.
  abbrev pub all_found : (V → Bool) → List (ℕ × V) → List (ℕ × V) → Bool
  all_found p l [] = true
  all_found p l ((j, v) ∷ keys) = holds_at p (lookup l j) && all_found p l keys

  abbrev pub all_entries : (V → Bool) → List (ℕ × V) → Bool
  all_entries p l = all_found p l l

  pub lookup-push :
      (l : List (ℕ × V)) (k j : ℕ) (v : V) (l' : List (ℕ × V))
      → lookup l k ≡ none
      → push l k v ≡ some l'
      → lookup l' j ≡ (if k == j then some v else lookup l j)
  lookup-push l k j v l' absent e = ground arith

  pub lookup-without :
      (l : List (ℕ × V)) (k j : ℕ) → lookup (without l k) j ≡ (if k == j then none else lookup l j)
  lookup-without [] k j = ground arith
  lookup-without ((i, v) ∷ l) k j = ground (arith, lookup-without l k j)

  pub lookup-write :
      (l : List (ℕ × V)) (k j : ℕ) (v w : V)
      → lookup l k ≡ some w
      → lookup (write l k v) j ≡ (if k == j then some v else lookup l j)
  lookup-write l k j v w e = ground (arith, lookup-without l k j)

  pub lookup-map_entries :
      (f : V → V) (l : List (ℕ × V)) (k : ℕ)
      → lookup (map_entries f l) k ≡ OptionFns.map f (lookup l k)
  lookup-map_entries f [] k = refl
  lookup-map_entries f ((j, v) ∷ l) k = ground (arith, lookup-map_entries f l k)

  all_found_sound :
      (p : V → Bool) (l keys : List (ℕ × V)) (k : ℕ) (v w : V)
      → all_found p l keys ≡ true
      → lookup keys k ≡ some w
      → lookup l k ≡ some v
      → p v ≡ true
  all_found_sound p l [] k v w h e f = cc
  all_found_sound p l ((j, u) ∷ keys) k v w h e f = elim (Bool-cases (j == k)) [
    | inl same ↦ ground (arith, (==_iff j k).0 same)
    | inr other ↦ ground (arith, all_found_sound p l keys k v w)
  ]

  all_found_complete :
      (p : V → Bool) (l keys : List (ℕ × V))
      → ((k : ℕ) (v : V) → lookup l k ≡ some v → p v ≡ true)
      → all_found p l keys ≡ true
  all_found_complete p l [] h = refl
  all_found_complete p l ((j, u) ∷ keys) h = elim (Option-cases (lookup l j)) [
    | inl e ↦ rw e (all_found_complete p l keys h)
    | inr (v, e) ↦ rw (e, h j v e) (all_found_complete p l keys h)
  ]

  pub all_entries_iff :
      (p : V → Bool) (l : List (ℕ × V))
      → (all_entries p l ≡ true) ↔ ((k : ℕ) (v : V) → lookup l k ≡ some v → p v ≡ true)
  all_entries_iff p l =
      (λ h k v e. all_found_sound p l l k v v h e e, λ h. all_found_complete p l l h)

-- The interface is met.
instance abbrev pub assoc : {V : Type 0} → Hashtable (List (ℕ × V)) V
assoc = record {
  create = [];
  search = lookup;
  insert = push;
  remove = without;
  store = write;
  map_values = map_entries;
  all_values = all_entries;
  search-create = λ k. refl;
  search-insert = lookup-push;
  search-remove = lookup-without;
  search-store = lookup-write;
  search-map_values = lookup-map_entries;
  all_values_iff = all_entries_iff;
}
