-- ===== src/Qbft/Container.antt =====
-- The store of one kind of message: anchor/common/qbft/src/msg_container.rs.
pub mod Invariant
pub mod Quorum
use anchor.Base.{
  ℕ, ◌+◌, Bool, true, false, List, [], ◌∷◌, ◌++◌, Option, none, some, ◌==◌, leb, if◌then◌else◌,
  length, keep, is_none,
}
use anchor.Base.Maps.{lookup, alter, alter_sorted}
use anchor.Base.Sets.{contains, insert, insert_all}
use anchor.Ssv.Round.{Round, next}
use anchor.Ssv.Consensus.{Hash256}
use anchor.Qbft.Types.{WrappedQbftMessage}

-- `senders_by_round` is a `BTreeMap`: its rounds ascend.
pub record MessageContainer : Type 0 where
  pub messages : List (Round × List WrappedQbftMessage)
  pub senders_by_round : List (Round × List ℕ)
  pub values_by_round : List (Round × List Hash256)
  pub quorum_size : ℕ

unfoldable pub new : ℕ → MessageContainer
new quorum_size = record {
  messages = [];
  senders_by_round = [];
  values_by_round = [];
  quorum_size = quorum_size;
}

-- `or_default()` of a list or a set, and of a count.
abbrev pub or_empty {ℓ} : {A : Type ℓ} → Option (List A) → List A
or_empty none = []
or_empty (some xs) = xs

abbrev pub or_zero : Option ℕ → ℕ
or_zero none = 0
or_zero (some n) = n

-- Where the sender is known, its entry was there before, so nothing changes.
unfoldable pub add_message :
    MessageContainer → Round → ℕ → WrappedQbftMessage → MessageContainer × Bool
add_message c round sender msg =
    if contains (or_empty (lookup round c.senders_by_round)) sender then (c, false) else (
      record c {
        messages = alter (λ o. or_empty o ++ msg ∷ []) round c.messages;
        senders_by_round = alter_sorted (λ o. insert sender (or_empty o)) round c.senders_by_round;
        values_by_round =
            alter (λ o. insert msg.qbft_message.root (or_empty o)) round c.values_by_round;
      },
      true,
    )

-- The loop that counts each value.
unfoldable pub count_values : List (Hash256 × ℕ) → List WrappedQbftMessage → List (Hash256 × ℕ)
count_values counts [] = counts
count_values counts (m ∷ ms) =
    count_values (alter (λ o. or_zero o + 1) m.qbft_message.root counts) ms

-- `into_iter().find(…).map(…)`; the order of the entries is that of first insertion.
unfoldable pub find_quorum : ℕ → List (Hash256 × ℕ) → Option Hash256
find_quorum quorum [] = none
find_quorum quorum ((value, count) ∷ counts) =
    if leb quorum count then some value else find_quorum quorum counts

unfoldable pub has_quorum : MessageContainer → Round → Option Hash256
has_quorum c round = elim (lookup round c.messages) [
  | none ↦ none
  | some round_messages ↦ find_quorum c.quorum_size (count_values [] round_messages)
]

unfoldable pub has_quorum_disregarding_root : MessageContainer → Round → Bool
has_quorum_disregarding_root c round = elim (lookup round c.messages) [
  | none ↦ false
  | some msgs ↦ leb c.quorum_size (length msgs)
]

-- The loop over the later rounds, in ascending order.
unfoldable pub collect_operators :
    List (Round × List ℕ) → Option Round → List ℕ → Option Round × List ℕ
collect_operators [] min_future_round all_operators = (min_future_round, all_operators)
collect_operators ((r, operators) ∷ rest) min_future_round all_operators =
    collect_operators rest (if is_none min_future_round then some r else min_future_round)
      (insert_all all_operators operators)

unfoldable pub lowest_partial_quorum_above_round : MessageContainer → Round → ℕ → Option Round
lowest_partial_quorum_above_round c round partial = elim (next round) [
  | none ↦ none
  | some start_round ↦
      let (min_future_round, all_operators) =
        collect_operators (keep (λ e. leb start_round e.0) c.senders_by_round) none [] in
      if leb partial (length all_operators) then min_future_round else none
]

unfoldable pub get_messages_for_round : MessageContainer → Round → List WrappedQbftMessage
get_messages_for_round c round = or_empty (lookup round c.messages)

unfoldable pub get_quorum_of_messages : MessageContainer → Round → List WrappedQbftMessage
get_quorum_of_messages c round = elim (has_quorum c round) [
  | none ↦ []
  | some hash ↦ keep (λ m. m.qbft_message.root == hash) (get_messages_for_round c round)
]
