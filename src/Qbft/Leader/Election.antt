-- ===== src/Qbft/Leader/Election.antt =====
-- Who leads: the default leader function of anchor/common/qbft/src/qbft_types.rs.
use anchor.Base.{
  ℕ, zero, suc, ◌<◌, ◌≡◌, refl, ap, sym, ◌∙◌, true, ◌||◌, List, [], ◌∷◌, some, arith, ◌==◌, length,
  get_elem?,
}
use anchor.Base.Sets.{contains}
use anchor.Ssv.Round.{Round}
use anchor.Qbft.Leader.{
  DefaultLeaderFunction, insert_sorted, sort_unstable, leader_index, leader_function,
}
use mathlib.Core.List.{Permᴰ}

length-insert_sorted : (a : ℕ) (xs : List ℕ) → length (insert_sorted a xs) ≡ suc (length xs)
unfolding insert_sorted
length-insert_sorted a [] = refl
length-insert_sorted a (x ∷ xs) = ground (arith, length-insert_sorted a xs)

pub length-sort_unstable : (xs : List ℕ) → length (sort_unstable xs) ≡ length xs
unfolding sort_unstable
length-sort_unstable [] = refl
length-sort_unstable (x ∷ xs) =
    length-insert_sorted x (sort_unstable xs) ∙ ap suc (length-sort_unstable xs)

contains-insert_sorted :
    (a b : ℕ) (xs : List ℕ) → contains (insert_sorted a xs) b ≡ (a == b || contains xs b)
unfolding insert_sorted
contains-insert_sorted a b [] = ground arith
contains-insert_sorted a b (x ∷ xs) = ground (arith, contains-insert_sorted a b xs)

contains-sort_unstable : (b : ℕ) (xs : List ℕ) → contains (sort_unstable xs) b ≡ contains xs b
unfolding sort_unstable
contains-sort_unstable b [] = refl
contains-sort_unstable b (x ∷ xs) =
    ground (arith, contains-insert_sorted x b (sort_unstable xs), contains-sort_unstable b xs)

pub get_elem-contains :
    (xs : List ℕ) (i : ℕ)
    → i < length xs
    → (l : ℕ) × (get_elem? xs i ≡ some l) × (contains xs l ≡ true)
get_elem-contains [] i h = absurd (omega arith)
get_elem-contains (x ∷ xs) zero h = (x, refl, ground arith)
get_elem-contains (x ∷ xs) (suc i) h =
    let (l, e, c) = get_elem-contains xs i (omega arith) in (l, e, ground (arith, c))

insert_sorted_comm :
    (a b : ℕ) (xs : List ℕ)
    → insert_sorted a (insert_sorted b xs) ≡ insert_sorted b (insert_sorted a xs)
unfolding insert_sorted
insert_sorted_comm a b [] = ground arith
insert_sorted_comm a b (x ∷ xs) = ground (arith, insert_sorted_comm a b xs)

sort_unstable-Perm : (xs ys : List ℕ) → Permᴰ xs ys → sort_unstable xs ≡ sort_unstable ys
unfolding sort_unstable
sort_unstable-Perm _ _ Permᴰ.nil = refl
sort_unstable-Perm _ _ (Permᴰ.cons {l₁ = l} {l₂ = m} e p) = rw (e, sort_unstable-Perm l m p) refl
sort_unstable-Perm _ _ (Permᴰ.swap {a = a} {b = b} {l = l} e f) =
    rw (sym e, sym f) (insert_sorted_comm a b (sort_unstable l))
sort_unstable-Perm _ _ (Permᴰ.trans {l₁ = l} {l₂ = m} {l₃ = n} p q) =
    sort_unstable-Perm l m p ∙ sort_unstable-Perm m n q

module _ (f : DefaultLeaderFunction) (round : Round) (height : ℕ) (committee : List ℕ) where
  pub leader_index-lt :
      0 < length committee → leader_index f round height (length committee) < length committee
  unfolding leader_index
  leader_index-lt p = ground arith

  -- In every round of every instance exactly one member of a committee that is not empty is the
  -- leader, and the function is then defined for every operator.
  pub one_leader :
      0 < length committee
      → (l : ℕ) × (contains committee l ≡ true)
        × ((op : ℕ) → leader_function f op round height committee ≡ some (op == l))
  unfolding leader_function
  one_leader p =
      let (l, e, c) =
        get_elem-contains (sort_unstable committee)
          (leader_index f round height (length (sort_unstable committee)))
          (rw (length-sort_unstable committee) (leader_index-lt p)) in
      (l, sym (contains-sort_unstable l committee) ∙ c, λ op. rw (e, leader_function) refl)

-- Nodes that hold the committee in different orders elect the same leader.
pub leader_function-Perm :
    (f : DefaultLeaderFunction) (op : ℕ) (round : Round) (height : ℕ) (xs ys : List ℕ)
    → Permᴰ xs ys
    → leader_function f op round height xs ≡ leader_function f op round height ys
unfolding leader_function
leader_function-Perm f op round height xs ys p =
    rw (leader_function, sort_unstable-Perm xs ys p) refl
