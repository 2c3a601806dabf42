-- ===== src/Base/Sets.antt =====
-- Finite sets of numbers, the source's `HashSet` and `IndexSet` of operator identifiers and roots:
-- lists without repetition, a new element behind the others.
use Prim.Native.Nat.{ℕ, ◌+◌, ◌≤◌, ◌<◌}
use mathlib.Core.Path.{sym, ◌≡◌, refl, ◌∙◌}
use mathlib.Core.Logic.{◌⊎◌, inl, inr}
use mathlib.Core.Bool.{Bool, true, false, ◌||◌, not}
use mathlib.Core.List.{append-nil, append_assoc, List, [], ◌∷◌, ◌++◌}
use native.Mathlib.Omega.{arith}
use anchor.Base.Tests.{◌==◌, if◌then◌else◌, eq_of_==, Bool-cases}
use anchor.Base.Lists.{All, length, keep, length-append}

abbrev pub contains : List ℕ → ℕ → Bool
contains [] a = false
contains (x ∷ xs) a = x == a || contains xs a

-- `HashSet::insert` without its answer.
abbrev pub insert : ℕ → List ℕ → List ℕ
insert a xs = if contains xs a then xs else xs ++ a ∷ []

-- `extend` of a set by what an iterator yields, and `collect` into a new one.
abbrev pub insert_all : List ℕ → List ℕ → List ℕ
insert_all s [] = s
insert_all s (x ∷ xs) = insert_all (insert x s) xs

abbrev pub Distinct : List ℕ → Type 0
Distinct [] = Unit
Distinct (x ∷ xs) = (contains xs x ≡ false) × Distinct xs

abbrev pub Subset : List ℕ → List ℕ → Type 0
Subset xs ys = All (λ x. contains ys x ≡ true) xs

pub contains-append :
    (xs ys : List ℕ) (a : ℕ) → contains (xs ++ ys) a ≡ (contains xs a || contains ys a)
contains-append [] ys a = refl
contains-append (x ∷ xs) ys a = ground (arith, contains-append xs ys a)

pub contains-insert : (a b : ℕ) (xs : List ℕ) → contains (insert a xs) b ≡ (a == b || contains xs b)
contains-insert a b xs = elim (Bool-cases (contains xs a)) [
  | inl old ↦ ground (arith, old, eq_of_== a b)
  | inr new ↦ rw new (contains-append xs (a ∷ []) b ∙ ground arith)
]

pub Distinct-snoc :
    (xs : List ℕ) (a : ℕ) → contains xs a ≡ false → Distinct xs → Distinct (xs ++ a ∷ [])
Distinct-snoc [] a h d = (refl, tt)
Distinct-snoc (x ∷ xs) a h d =
    (contains-append xs (a ∷ []) x ∙ ground (arith, d.0), Distinct-snoc xs a (ground arith) d.1)

pub Distinct-insert : (a : ℕ) (xs : List ℕ) → Distinct xs → Distinct (insert a xs)
Distinct-insert a xs d = elim (Bool-cases (contains xs a)) [
  | inl old ↦ rw old d
  | inr new ↦ rw new (Distinct-snoc xs a new d)
]

-- A set of members of `ys` is no larger than `ys`.
remove : ℕ → List ℕ → List ℕ
remove a [] = []
remove a (x ∷ xs) = if x == a then xs else x ∷ remove a xs

length-remove : (a : ℕ) (xs : List ℕ) → contains xs a ≡ true → length (remove a xs) + 1 ≡ length xs
unfolding remove
length-remove a [] h = cc
length-remove a (x ∷ xs) h = ground (arith, length-remove a xs)

contains-remove :
    (a b : ℕ) (xs : List ℕ)
    → (a == b) ≡ false
    → contains xs b ≡ true
    → contains (remove a xs) b ≡ true
unfolding remove
contains-remove a b [] n h = cc
contains-remove a b (x ∷ xs) n h = ground (arith, contains-remove a b xs n)

Subset-remove :
    (a : ℕ) (xs ys : List ℕ) → contains xs a ≡ false → Subset xs ys → Subset xs (remove a ys)
Subset-remove a [] ys n s = tt
Subset-remove a (x ∷ xs) ys n s =
    (contains-remove a x ys (ground arith) s.0, Subset-remove a xs ys (ground arith) s.1)

pub length-Subset : (xs ys : List ℕ) → Distinct xs → Subset xs ys → length xs ≤ length ys
length-Subset [] ys d s = omega arith
length-Subset (x ∷ xs) ys d s = omega (
  arith,
  length-Subset xs (remove x ys) d.1 (Subset-remove x xs ys d.0 s.1),
  length-remove x ys s.0,
)

-- What two sets share, and what only the first holds.
abbrev pub common : List ℕ → List ℕ → List ℕ
common xs ys = keep (contains ys) xs

abbrev pub others : List ℕ → List ℕ → List ℕ
others xs ys = keep (λ a. not (contains ys a)) xs

length-parts : (xs ys : List ℕ) → length (common xs ys) + length (others xs ys) ≡ length xs
length-parts [] ys = refl
length-parts (x ∷ xs) ys = ground (arith, length-parts xs ys)

contains-others :
    (a : ℕ) (xs ys : List ℕ) → contains xs a ≡ false → contains (others xs ys) a ≡ false
contains-others a [] ys h = refl
contains-others a (x ∷ xs) ys h = ground (arith, contains-others a xs ys)

Distinct-others : (xs ys : List ℕ) → Distinct xs → Distinct ys → Distinct (others xs ys ++ ys)
Distinct-others [] ys dx dy = dy
Distinct-others (x ∷ xs) ys dx dy = elim (Bool-cases (contains ys x)) [
  | inl i ↦ rw i (Distinct-others xs ys dx.1 dy)
  | inr o ↦ rw o (
    contains-append (others xs ys) ys x ∙ ground (arith, contains-others x xs ys dx.0),
    Distinct-others xs ys dx.1 dy,
  )
]

Subset-others : (xs ys zs : List ℕ) → Subset xs zs → Subset ys zs → Subset (others xs ys ++ ys) zs
Subset-others [] ys zs sx sy = sy
Subset-others (x ∷ xs) ys zs sx sy = elim (Bool-cases (contains ys x)) [
  | inl i ↦ rw i (Subset-others xs ys zs sx.1 sy)
  | inr o ↦ rw o (sx.0, Subset-others xs ys zs sx.1 sy)
]

-- Two sets of members of `zs` share at least what their sizes leave over.
pub length-common :
    (zs xs ys : List ℕ)
    → Distinct xs
    → Distinct ys
    → Subset xs zs
    → Subset ys zs
    → length xs + length ys ≤ length zs + length (common xs ys)
length-common zs xs ys dx dy sx sy = omega (
  arith,
  length-Subset (others xs ys ++ ys) zs (Distinct-others xs ys dx dy)
      (Subset-others xs ys zs sx sy),
  length-append (others xs ys) ys,
  length-parts xs ys,
)

-- Members of `xs` alone.
pub keep-Subset : (xs ys : List ℕ) → Subset xs ys → keep (contains ys) xs ≡ xs
keep-Subset [] ys s = refl
keep-Subset (x ∷ xs) ys s = ground (arith, keep-Subset xs ys s.1)

contains-of_Distinct-append :
    (a : ℕ) (xs ys : List ℕ) → Distinct (xs ++ a ∷ ys) → contains xs a ≡ false
contains-of_Distinct-append a [] ys d = refl
contains-of_Distinct-append a (x ∷ xs) ys d =
    ground (arith, contains-of_Distinct-append a xs ys d.1, contains-append xs (a ∷ ys) x)

pub insert_all-Distinct : (s xs : List ℕ) → Distinct (s ++ xs) → insert_all s xs ≡ s ++ xs
insert_all-Distinct s [] d = sym (append-nil s)
insert_all-Distinct s (x ∷ xs) d =
    rw (contains-of_Distinct-append x s xs d)
      (insert_all-Distinct (s ++ x ∷ []) xs (rw append_assoc d) ∙ append_assoc s (x ∷ []) xs)

contains-of_Subset :
    (a : ℕ) (xs ys : List ℕ) → Subset xs ys → contains ys a ≡ false → contains xs a ≡ false
contains-of_Subset a [] ys s h = refl
contains-of_Subset a (x ∷ xs) ys s h = ground (arith, contains-of_Subset a xs ys s.1, eq_of_== x a)

-- What `insert_all` collects is a set.
pub Distinct-insert_all : (s xs : List ℕ) → Distinct s → Distinct (insert_all s xs)
Distinct-insert_all s [] d = d
Distinct-insert_all s (x ∷ xs) d = Distinct-insert_all (insert x s) xs (Distinct-insert x s d)

pub contains-insert_all :
    (s xs : List ℕ) (a : ℕ) → contains (insert_all s xs) a ≡ (contains s a || contains xs a)
contains-insert_all s [] a = ground arith
contains-insert_all s (x ∷ xs) a =
    ground (arith, contains-insert_all (insert x s) xs a, contains-insert x a s)

-- A set of more elements than a list has one that the list has not.
Subset-or-witness :
    (xs ys : List ℕ) → Subset xs ys ⊎ ((a : ℕ) × (contains xs a ≡ true) × (contains ys a ≡ false))
Subset-or-witness [] ys = inl tt
Subset-or-witness (x ∷ xs) ys = elim (Bool-cases (contains ys x)) [
  | inr out ↦ inr (x, ground arith, out)
  | inl here ↦ elim (Subset-or-witness xs ys) [
    | inl s ↦ inl (here, s)
    | inr (a, i, o) ↦ inr (a, ground arith, o)
  ]
]

pub outside :
    (xs ys : List ℕ)
    → Distinct xs
    → length ys < length xs
    → (a : ℕ) × (contains xs a ≡ true) × (contains ys a ≡ false)
outside xs ys d more = elim (Subset-or-witness xs ys) [
  | inl s ↦ absurd (omega (arith, length-Subset xs ys d s))
  | inr found ↦ found
]

pub contains-common :
    (a : ℕ) (xs ys : List ℕ)
    → contains (common xs ys) a ≡ true
    → (contains xs a ≡ true) × (contains ys a ≡ true)
contains-common a [] ys h = cc
contains-common a (x ∷ xs) ys h = ground (arith, contains-common a xs ys, eq_of_== x a)

contains-common-false :
    (a : ℕ) (xs ys : List ℕ) → contains xs a ≡ false → contains (common xs ys) a ≡ false
contains-common-false a [] ys h = refl
contains-common-false a (x ∷ xs) ys h = ground (arith, contains-common-false a xs ys)

pub Distinct-common : (xs ys : List ℕ) → Distinct xs → Distinct (common xs ys)
Distinct-common [] ys d = tt
Distinct-common (x ∷ xs) ys d =
    ground (arith, Distinct-common xs ys d.1, contains-common-false x xs ys d.0)
