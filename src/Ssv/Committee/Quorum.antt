-- ===== src/Ssv/Committee/Quorum.antt =====
-- What the quorum sizes of anchor/common/ssv_types/src/lib.rs guarantee.
use anchor.Base.{ℕ, ◌+◌, ◌*◌, ◌≤◌, ◌<◌, ◌≡◌, ◌↔◌, ◌⊎◌, true, List, arith, length, keep}
use anchor.Base.Sets.{contains, Distinct, Subset, length-common}
use anchor.Ssv.Committee.{get_f, quorum_size, is_valid_committee_size}

-- The canonical committee sizes are 4, 7, 10 and 13, and no others.
pub valid_committee_size_iff :
    (n : ℕ) → (is_valid_committee_size n ≡ true) ↔ ((n ≡ 4) ⊎ (n ≡ 7) ⊎ (n ≡ 10) ⊎ (n ≡ 13))
unfolding is_valid_committee_size
valid_committee_size_iff n = ground arith

-- In a canonical committee of n = 3f + 1 members the quorum is the n - f members that remain
-- when f are silent, and twice the quorum exceeds n by more than f.
pub quorum_size_bounds :
    (n : ℕ)
    → is_valid_committee_size n ≡ true
    → (quorum_size n + get_f n ≡ n) × (n + get_f n < quorum_size n * 2) × (1 ≤ get_f n)
unfolding is_valid_committee_size quorum_size
quorum_size_bounds n h = ground arith

-- Any two quorums of a canonical committee have more than f members in common.
pub quorum_intersection :
    (committee xs ys : List ℕ)
    → is_valid_committee_size (length committee) ≡ true
    → Distinct xs
    → Distinct ys
    → Subset xs committee
    → Subset ys committee
    → quorum_size (length committee) ≤ length xs
    → quorum_size (length committee) ≤ length ys
    → get_f (length committee) < length (keep (contains ys) xs)
quorum_intersection committee xs ys v dx dy sx sy qx qy =
    omega
      (arith, length-common committee xs ys dx dy sx sy, quorum_size_bounds (length committee) v)
