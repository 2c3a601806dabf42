-- ===== src/Qbft/Container/Invariant.antt =====
-- What `add_message` of anchor/common/qbft/src/msg_container.rs keeps: each sender has one message
-- in a round.
use anchor.Base.{
  ℕ, ◌≡◌, refl, inl, inr, true, false, not, List, [], ◌∷◌, ◌++◌, arith, ◌==◌, if◌then◌else◌, length,
  length-append, Bool-cases, eq_of_==,
}
use anchor.Base.Maps.{
  lookup, SortedFrom, lookup-alter, lookup-alter_sorted, alter_sorted-SortedFrom,
}
use anchor.Base.Sets.{contains, Distinct, Distinct-snoc, insert}
use anchor.Ssv.Round.{Round}
use anchor.Qbft.Types.{WrappedQbftMessage}
use anchor.Qbft.Container.{MessageContainer, new, or_empty, add_message, get_messages_for_round}

abbrev pub senders : MessageContainer → Round → List ℕ
senders c r = or_empty (lookup r c.senders_by_round)

-- The senders of a round are distinct and are as many as its messages; the rounds ascend.
pub record IsValid (c : MessageContainer) : Type 0 where
  pub ascending : SortedFrom 0 c.senders_by_round
  pub distinct : (r : Round) → Distinct (senders c r)
  pub counted : (r : Round) → length (get_messages_for_round c r) ≡ length (senders c r)

pub new-IsValid : (quorum : ℕ) → IsValid (new quorum)
unfolding new get_messages_for_round
new-IsValid quorum = record { ascending = tt; distinct = λ r. tt; counted = λ r. refl }

module _ (c : MessageContainer) (round : Round) (sender : ℕ) (msg : WrappedQbftMessage) where
  -- A second message of a sender in a round is refused and changes nothing.
  pub add_message-known :
      contains (senders c round) sender ≡ true → add_message c round sender msg ≡ (c, false)
  unfolding add_message
  add_message-known h = rw h

  pub messages-add_message :
      contains (senders c round) sender ≡ false
      → (r : Round)
      → get_messages_for_round (add_message c round sender msg).0 r ≡ (
          if round == r then get_messages_for_round c r ++ msg ∷ [] else get_messages_for_round c r)
  unfolding add_message get_messages_for_round
  messages-add_message h r = elim (Bool-cases (round == r)) [
    | inl same ↦ ground (
      arith,
      lookup-alter {V = List WrappedQbftMessage} (λ o. or_empty o ++ msg ∷ []) round r c.messages,
      eq_of_== round r,
    )
    | inr other ↦ ground (
      arith,
      lookup-alter {V = List WrappedQbftMessage} (λ o. or_empty o ++ msg ∷ []) round r c.messages,
    )
  ]

  pub senders-add_message :
      SortedFrom 0 c.senders_by_round
      → contains (senders c round) sender ≡ false
      → (r : Round)
      → senders (add_message c round sender msg).0 r
        ≡ (if round == r then senders c r ++ sender ∷ [] else senders c r)
  unfolding add_message
  senders-add_message s h r = elim (Bool-cases (round == r)) [
    | inl same ↦ ground (
      arith,
      lookup-alter_sorted {V = List ℕ} (λ o. insert sender (or_empty o)) round r 0
          c.senders_by_round s,
      eq_of_== round r,
    )
    | inr other ↦ ground (
      arith,
      lookup-alter_sorted {V = List ℕ} (λ o. insert sender (or_empty o)) round r 0
          c.senders_by_round s,
    )
  ]

  pub added-add_message :
      (add_message c round sender msg).1 ≡ not (contains (senders c round) sender)
  unfolding add_message
  added-add_message = ground arith

  pub quorum_size-add_message : (add_message c round sender msg).0.quorum_size ≡ c.quorum_size
  unfolding add_message
  quorum_size-add_message = ground arith

  ascending-add_message :
      SortedFrom 0 c.senders_by_round
      → SortedFrom 0 (add_message c round sender msg).0.senders_by_round
  unfolding add_message
  ascending-add_message s = ground (
    arith,
    alter_sorted-SortedFrom {V = List ℕ} (λ o. insert sender (or_empty o)) round 0
        c.senders_by_round,
  )

  -- Storing a message keeps one message for each sender and round.
  pub add_message-IsValid : IsValid c → IsValid (add_message c round sender msg).0
  add_message-IsValid v = elim (Bool-cases (contains (senders c round) sender)) [
    | inl known ↦ rw (add_message-known known) v
    | inr fresh ↦ record {
      ascending = ascending-add_message v.ascending;
      distinct = λ r.
          rw (senders-add_message v.ascending fresh r)
            (ground (arith, Distinct-snoc (senders c r) sender, v.distinct r, eq_of_== round r));
      counted = λ r.
          rw (senders-add_message v.ascending fresh r, messages-add_message fresh r)
            (ground (
              arith,
              v.counted r,
              length-append (get_messages_for_round c r) (msg ∷ []),
              length-append (senders c r) (sender ∷ []),
            ));
    }
  ]
