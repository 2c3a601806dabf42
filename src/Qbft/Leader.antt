-- ===== src/Qbft/Leader.antt =====
-- The default leader function: anchor/common/qbft/src/qbft_types.rs.
pub mod Election
use anchor.Base.{
  ℕ, ◌+◌, ◌-◌, ◌/◌, ◌%◌, ◌^◌, Bool, List, [], ◌∷◌, Option, none, some, ◌==◌, leb, if◌then◌else◌,
  length, get_elem?,
}
use anchor.Ssv.Round.{Round, first_round}

pub record DefaultLeaderFunction : Type 0 where
  pub slots_per_epoch : ℕ  -- NonZeroU64
  pub include_epoch_shift : Bool

-- `sort_unstable`; the members of a committee are distinct, so the order is unique.
unfoldable pub insert_sorted : ℕ → List ℕ → List ℕ
insert_sorted a [] = a ∷ []
insert_sorted a (x ∷ xs) = if leb a x then a ∷ x ∷ xs else x ∷ insert_sorted a xs

unfoldable pub sort_unstable : List ℕ → List ℕ
unfolding insert_sorted
sort_unstable [] = []
sort_unstable (x ∷ xs) = insert_sorted x (sort_unstable xs)

-- The sum of `usize` numbers wraps, as in a release build.
unfoldable pub leader_index : DefaultLeaderFunction → Round → ℕ → ℕ → ℕ
leader_index f round height size =
    let eth_epoch = if f.include_epoch_shift then height / f.slots_per_epoch else 0 in
    ((round - first_round + height + eth_epoch) % 2 ^ 64) % size

-- `none` is the panic on an empty committee.
unfoldable pub leader_function : DefaultLeaderFunction → ℕ → Round → ℕ → List ℕ → Option Bool
leader_function f operator_id round instance_height committee =
    let sorted_committee = sort_unstable committee in
    let index = leader_index f round instance_height (length sorted_committee) in
    elim (get_elem? sorted_committee index) [ none ↦ none | some l ↦ some (operator_id == l) ]
