-- ===== src/Validator/Leader.antt =====
-- The validator's leader
-- (anchor/message_validator/src/consensus_message.rs) against that of the QBFT instance.
use anchor.Base.{
  ℕ, ◌+◌, ◌-◌, ◌/◌, ◌%◌, ◌^◌, ◌≤◌, ◌<◌, ◌≡◌, refl, List, some, if◌then◌else◌, length, is_empty,
  false, arith, ◌==◌,
}
use anchor.Base.Result.{ok}
use native.Mathlib.Nat.{mod-add-mod, mod-eq_of_lt, mod-le}
use anchor.Qbft.Leader.Election.{get_elem-contains, length-sort_unstable, leader_index-lt}
use anchor.Ssv.Round.{Round}
use anchor.Fork.{ForkSchedule}
use anchor.Qbft.Leader.{DefaultLeaderFunction, sort_unstable, leader_index, leader_function}
use anchor.Validator.{boole_active, proposer_index, round_robin_proposer}

mod_rearranged :
    (shift round height size : ℕ)
    → 1 ≤ round
    → (height % size + round - 1 + shift) % size ≡ (round - 1 + height + shift) % size
mod_rearranged shift round height size r =
    let a : height % size + round - 1 + shift ≡ height % size + (round - 1 + shift) = omega arith in
    let b : round - 1 + height + shift ≡ height + (round - 1 + shift) = omega arith in
    rw (a, b) (mod-add-mod height size (round - 1 + shift))

proposer_index-leader_index :
    (f : DefaultLeaderFunction) (round : Round) (height size : ℕ)
    → 1 ≤ round
    → round + height + height / f.slots_per_epoch < 2 ^ 64
    → proposer_index height round
        (if f.include_epoch_shift then height / f.slots_per_epoch else 0)
        size
      ≡ leader_index f round height size
unfolding proposer_index leader_index
proposer_index-leader_index f round height size r fits =
    let shift = if f.include_epoch_shift then height / f.slots_per_epoch else 0 in
    let bounded : shift ≤ height / f.slots_per_epoch = ground arith in
    let first : (height % size + round - 1 + shift) % 2 ^ 64 ≡ height % size + round - 1 + shift =
      mod-eq_of_lt (omega (arith, mod-le height size)) in
    let second : (round - 1 + height + shift) % 2 ^ 64 ≡ round - 1 + height + shift =
      mod-eq_of_lt (omega arith) in
    rw (first, second) (mod_rearranged shift round height size r)

-- For a committee that is not empty, a round of at least 1, a schedule with an active fork, and
-- numbers whose sum fits 64 bits, the operator that the validator expects to propose is the
-- one that the default leader function elects, if that includes the shift by the epoch from
-- the fork Boole on.
pub round_robin_proposer-leader_function :
    (f : DefaultLeaderFunction) (round : Round) (height : ℕ) (committee : List ℕ) (s : ForkSchedule)
    → 0 < length committee
    → 1 ≤ round
    → 0 < f.slots_per_epoch
    → round + height + height / f.slots_per_epoch < 2 ^ 64
    → boole_active s (height / f.slots_per_epoch) ≡ some f.include_epoch_shift
    → (l : ℕ) × (round_robin_proposer height round committee f.slots_per_epoch s ≡ ok l)
      × ((op : ℕ) → leader_function f op round height committee ≡ some (op == l))
unfolding round_robin_proposer leader_function
round_robin_proposer-leader_function f round height committee s p r z fits b =
    let size = length (sort_unstable committee) in
    let (l, e, _) =
      get_elem-contains (sort_unstable committee) (leader_index f round height size)
        (rw (length-sort_unstable committee) (leader_index-lt f round height committee p)) in
    let same = proposer_index-leader_index f round height size r fits in
    let inhabited : is_empty committee ≡ false = ground (arith, p) in
    let nonzero : (f.slots_per_epoch == 0) ≡ false = ground (arith, z) in
    (
      l,
      rw (round_robin_proposer, inhabited, nonzero, b, same, e) refl,
      λ op. rw (leader_function, e) refl,
    )
