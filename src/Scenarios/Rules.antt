-- ===== src/Scenarios/Rules.antt =====
-- The theorems on committees, messages, containers, leaders and ends of rounds, on concrete data.
use mathlib.Core.List.{Permᴰ}
use anchor.Base.{
  ℕ, ◌*◌, ◌≤◌, ◌<◌, ◌≡◌, refl, ◌↔◌, true, [], ◌∷◌, ◌++◌, some, arith, ◌==◌, length, keep,
}
use anchor.Base.Result.{ok}
use anchor.Base.Sets.{contains}
use anchor.Ssv.Committee.{get_f, quorum_size, is_valid_committee_size}
use anchor.Ssv.Committee.Quorum.{quorum_intersection}
use anchor.Ssv.Message.{SignedSsvMessage, validate}
use anchor.Ssv.Message.Aggregate.{aggregate, extend, push_all, zip, insert_pair, sort_pairs}
use anchor.Ssv.Message.Valid.{IsWellFormed, validate_iff}
use anchor.Ssv.Message.Sorted.{Ascending, pairs_of, pairs_of_all, aggregate_lem}
use anchor.Ssv.Consensus.{commit}
use anchor.Qbft.Config.{build}
use anchor.Qbft.Config.Built.{build_iff}
use anchor.Qbft.Leader.{DefaultLeaderFunction, leader_function}
use anchor.Qbft.Leader.Election.{one_leader, leader_function-Perm}
use anchor.Qbft.Container
use anchor.Qbft.Container.{
  MessageContainer, add_message, get_messages_for_round, get_quorum_of_messages,
}
use anchor.Qbft.Container.Quorum.{count_root, has_quorum_iff}
use anchor.Qbft.Tally.{IsTally, new-IsTally, add_message-IsTally}
use anchor.Scenarios.{four, node, vote}

seven_is_valid : is_valid_committee_size 7 ≡ true
unfolding is_valid_committee_size
seven_is_valid = refl

four_is_valid : is_valid_committee_size (length four) ≡ true
unfolding is_valid_committee_size
four_is_valid = refl

quorum_intersection_example :
    get_f (length four) < length (keep (contains (2 ∷ 3 ∷ 4 ∷ [])) (1 ∷ 2 ∷ 3 ∷ []))
unfolding quorum_size
quorum_intersection_example =
    quorum_intersection four (1 ∷ 2 ∷ 3 ∷ []) (2 ∷ 3 ∷ 4 ∷ []) four_is_valid
      (refl, (refl, (refl, tt))) (refl, (refl, (refl, tt))) (refl, (refl, (refl, tt)))
      (refl, (refl, (refl, tt))) (omega arith) (omega arith)

abbrev sample : SignedSsvMessage
sample = (vote commit [] (3 ∷ [])).signed_message

validate_iff_example : (validate sample ≡ ok tt) ↔ IsWellFormed sample
validate_iff_example = validate_iff sample

abbrev signed_by : ℕ → SignedSsvMessage
signed_by op = (vote commit [] (op ∷ [])).signed_message

abbrev merged : SignedSsvMessage
merged = record (signed_by 3) {
  signatures = (0 ∷ []) ∷ (0 ∷ []) ∷ (0 ∷ []) ∷ [];
  operator_ids = 1 ∷ 2 ∷ 3 ∷ [];
}

merged_of_three : aggregate (signed_by 3) (signed_by 1 ∷ signed_by 2 ∷ []) ≡ ok merged
unfolding aggregate extend push_all zip insert_pair sort_pairs
merged_of_three = refl

aggregate_lem_example :
    Permᴰ
      (pairs_of (signed_by 3) ++ pairs_of_all (signed_by 1 ∷ signed_by 2 ∷ []))
      (pairs_of merged)
    × Ascending merged.operator_ids
    × (merged.ssv_message ≡ (signed_by 3).ssv_message)
    × (merged.full_data ≡ (signed_by 3).full_data)
aggregate_lem_example =
    aggregate_lem (signed_by 3) merged (signed_by 1 ∷ signed_by 2 ∷ []) refl merged_of_three

build_iff_example : (build (node 2) ≡ ok (node 2)) ↔ (
    (node 2 ≡ node 2)
    × (is_valid_committee_size (length (node 2).committee_members) ≡ true)
    × (contains (node 2).committee_members (node 2).operator_id ≡ true)
    × ((node 2).round ≤ (node 2).max_rounds)
    × (0 < (node 2).max_rounds))
build_iff_example = build_iff (node 2) (node 2)

abbrev rotation : DefaultLeaderFunction
rotation = record { slots_per_epoch = 32; include_epoch_shift = true }

one_leader_example :
    (l : ℕ) × (contains four l ≡ true)
    × ((op : ℕ) → leader_function rotation op 2 65 four ≡ some (op == l))
one_leader_example = one_leader rotation 2 65 four (omega arith)

leader_function-Perm_example :
    leader_function rotation 3 2 65 (2 ∷ 1 ∷ []) ≡ leader_function rotation 3 2 65 (1 ∷ 2 ∷ [])
leader_function-Perm_example =
    leader_function-Perm rotation 3 2 65 (2 ∷ 1 ∷ []) (1 ∷ 2 ∷ []) (Permᴰ.swap refl refl)

abbrev store : MessageContainer → ℕ → MessageContainer
store c op = (add_message c 1 op (vote commit [] (op ∷ []))).0

abbrev stored : MessageContainer
stored = store (store (store (Container.new 3) 1) 2) 4

stored-quorum : Container.has_quorum stored 1 ≡ some 7
unfolding Container.has_quorum Container.count_values Container.find_quorum add_message
    Container.new
stored-quorum = refl

stored-few : length (get_messages_for_round stored 1) < stored.quorum_size * 2
unfolding get_messages_for_round add_message Container.new
stored-few = omega arith

stored-positive : 0 < stored.quorum_size
unfolding add_message Container.new
stored-positive = omega arith

has_quorum_iff_example :
    (Container.has_quorum stored 1 ≡ some 7)
    ↔ (stored.quorum_size ≤ count_root 7 (get_messages_for_round stored 1))
has_quorum_iff_example = has_quorum_iff stored 1 7 stored-positive stored-few

add_message-IsTally_example : IsTally four (store (Container.new 3) 1)
add_message-IsTally_example =
    add_message-IsTally four (Container.new 3) 1 1 (vote commit [] (1 ∷ [])) refl refl
      (new-IsTally four 3)
