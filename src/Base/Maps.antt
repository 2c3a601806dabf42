-- ===== src/Base/Maps.antt =====
-- Maps keyed by numbers, as association lists.
use Prim.Native.Nat.{ℕ, suc, ◌≤◌, ◌<◌}
use mathlib.Core.Path.{◌≡◌, refl}
use mathlib.Core.List.{List, [], ◌∷◌}
use mathlib.Core.Option.{Option, none, some}
use native.Mathlib.Omega.{arith}
use anchor.Base.Tests.{◌==◌, ltb, if◌then◌else◌}

module _ {ℓ} {V : Type ℓ} where
  -- `HashMap::get`
  abbrev pub lookup : ℕ → List (ℕ × V) → Option V
  lookup k [] = none
  lookup k ((j, v) ∷ m) = if j == k then some v else lookup k m

  -- `HashMap::entry(k)`, and a write to it.
  abbrev pub alter : (Option V → V) → ℕ → List (ℕ × V) → List (ℕ × V)
  alter f k [] = (k, f none) ∷ []
  alter f k ((j, v) ∷ m) = if j == k then (j, f (some v)) ∷ m else (j, v) ∷ alter f k m

  -- `HashMap::insert`
  abbrev pub put : ℕ → V → List (ℕ × V) → List (ℕ × V)
  put k v = alter (λ _. v) k

  pub lookup-alter :
      (f : Option V → V) (k j : ℕ) (m : List (ℕ × V))
      → lookup j (alter f k m) ≡ (if k == j then some (f (lookup k m)) else lookup j m)
  lookup-alter f k j [] = ground arith
  lookup-alter f k j ((i, v) ∷ m) = ground (arith, lookup-alter f k j m)

  pub lookup-put :
      (k j : ℕ) (v : V) (m : List (ℕ × V))
      → lookup j (put k v m) ≡ (if k == j then some v else lookup j m)
  lookup-put k j v m = lookup-alter (λ _. v) k j m

  -- `BTreeMap::entry(k)`, and a write to it.
  abbrev pub alter_sorted : (Option V → V) → ℕ → List (ℕ × V) → List (ℕ × V)
  alter_sorted f k [] = (k, f none) ∷ []
  alter_sorted f k ((j, v) ∷ m) =
      if j == k
      then (j, f (some v)) ∷ m
      else if ltb k j
      then (k, f none) ∷ (j, v) ∷ m
      else (j, v) ∷ alter_sorted f k m

  -- The keys ascend, from `n` on.
  abbrev pub SortedFrom : ℕ → List (ℕ × V) → Type 0
  SortedFrom n [] = Unit
  SortedFrom n ((k, _) ∷ m) = (n ≤ k) × SortedFrom (suc k) m

  pub lookup_below : (k n : ℕ) (m : List (ℕ × V)) → SortedFrom n m → k < n → lookup k m ≡ none
  lookup_below k n [] s h = refl
  lookup_below k n ((j, v) ∷ m) s h = ground (arith, lookup_below k (suc j) m s.1)

  pub alter_sorted-SortedFrom :
      (f : Option V → V) (k n : ℕ) (m : List (ℕ × V))
      → n ≤ k
      → SortedFrom n m
      → SortedFrom n (alter_sorted f k m)
  alter_sorted-SortedFrom f k n [] h s = (h, tt)
  alter_sorted-SortedFrom f k n ((j, v) ∷ m) h s =
      ground (arith, alter_sorted-SortedFrom f k (suc j) m)

  pub lookup-alter_sorted :
      (f : Option V → V) (k j n : ℕ) (m : List (ℕ × V))
      → SortedFrom n m
      → lookup j (alter_sorted f k m) ≡ (if k == j then some (f (lookup k m)) else lookup j m)
  lookup-alter_sorted f k j n [] s = ground arith
  lookup-alter_sorted f k j n ((i, v) ∷ m) s =
      ground (arith, lookup-alter_sorted f k j (suc i) m s.1, lookup_below k (suc i) m s.1)
