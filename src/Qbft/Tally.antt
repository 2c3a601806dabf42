-- ===== src/Qbft/Tally.antt =====
-- The messages of one kind as votes of committee members, each signed by its sender alone.
use anchor.Base.{
  ℕ, ◌≡◌, refl, sym, inl, inr, Bool, true, false, List, [], ◌∷◌, ◌++◌, arith, ◌==◌, length, keep,
  Bool-cases, All, All-append, All-if, singleton_of_length, length-append,
}
use anchor.Base.Sets.{contains, Distinct, Subset, keep-Subset, insert_all-Distinct, contains-append}
use mathlib.Core.List.{append_assoc}
use anchor.Ssv.Round.{Round}
use anchor.Qbft.Types.{WrappedQbftMessage}
use anchor.Qbft.Container.{MessageContainer, new, add_message, get_messages_for_round}
use anchor.Qbft.Container.Invariant.{
  IsValid, senders, new-IsValid, add_message-IsValid, add_message-known, messages-add_message,
  senders-add_message,
}
use anchor.Qbft.Instance.{all_operator_ids, unique_operators, signed_messages}

-- The operators that signed the messages.
abbrev pub signers : List WrappedQbftMessage → List ℕ
signers ms = all_operator_ids (signed_messages ms)

abbrev pub IsSingle : WrappedQbftMessage → Type 0
IsSingle w = length w.signed_message.operator_ids ≡ 1

-- Each message of a round has one signer, its sender; the senders are distinct members.
pub record IsTally (committee : List ℕ) (c : MessageContainer) : Type 0 where
  pub valid : IsValid c
  pub single : (r : Round) → All IsSingle (get_messages_for_round c r)
  pub signed : (r : Round) → signers (get_messages_for_round c r) ≡ senders c r
  pub members : (r : Round) → Subset (senders c r) committee

pub new-IsTally : (committee : List ℕ) (quorum : ℕ) → IsTally committee (new quorum)
unfolding new get_messages_for_round all_operator_ids
new-IsTally committee quorum = record {
  valid = new-IsValid quorum;
  single = λ r. tt;
  signed = λ r. refl;
  members = λ r. tt;
}

signers-snoc :
    (ms : List WrappedQbftMessage) (w : WrappedQbftMessage) (a : ℕ)
    → w.signed_message.operator_ids ≡ a ∷ []
    → signers (ms ++ w ∷ []) ≡ signers ms ++ a ∷ []
unfolding all_operator_ids
signers-snoc [] w a e = rw e
signers-snoc (m ∷ ms) w a e = rw (signers-snoc ms w a e) (sym (append_assoc _ (signers ms) _))

module _ (committee : List ℕ) (c : MessageContainer) (round : Round) (sender : ℕ)
    (w : WrappedQbftMessage) (own : w.signed_message.operator_ids ≡ sender ∷ [])
    (member : contains committee sender ≡ true) where
  -- Storing a member's message under its one signer keeps the tally.
  pub add_message-IsTally : IsTally committee c → IsTally committee (add_message c round sender w).0
  add_message-IsTally t = elim (Bool-cases (contains (senders c round) sender)) [
    | inl known ↦ rw (add_message-known c round sender w known) t
    | inr fresh ↦ record {
      valid = add_message-IsValid c round sender w t.valid;
      single = λ r. rw (messages-add_message c round sender w fresh r) (
          All-if IsSingle (round == r) _ (get_messages_for_round c r)
            (All-append IsSingle (get_messages_for_round c r) (w ∷ []) (t.single r)
              (rw own refl, tt))
            (t.single r));
      signed = λ r.
          rw
            (
              messages-add_message c round sender w fresh r,
              senders-add_message c round sender w t.valid.ascending fresh r,
            )
            (ground (arith, t.signed r, signers-snoc (get_messages_for_round c r) w sender own));
      members = λ r. rw (senders-add_message c round sender w t.valid.ascending fresh r) (
          All-if (λ x. contains committee x ≡ true) (round == r) _ (senders c r)
            (All-append (λ x. contains committee x ≡ true) (senders c r) (sender ∷ []) (t.members r)
              (member, tt))
            (t.members r));
    }
  ]

-- A part of the messages that a test selects.
module _ (p : WrappedQbftMessage → Bool) where
  contains-signers-keep :
      (ms : List WrappedQbftMessage) (a : ℕ)
      → contains (signers ms) a ≡ false
      → contains (signers (keep p ms)) a ≡ false
  unfolding all_operator_ids
  contains-signers-keep [] a h = refl
  contains-signers-keep (m ∷ ms) a h = ground (
    arith,
    contains-signers-keep ms a,
    contains-append m.signed_message.operator_ids (signers ms) a,
    contains-append m.signed_message.operator_ids (signers (keep p ms)) a,
  )

  pub Distinct-signers-keep :
      (ms : List WrappedQbftMessage)
      → All IsSingle ms
      → Distinct (signers ms)
      → Distinct (signers (keep p ms))
  unfolding all_operator_ids
  Distinct-signers-keep [] s d = tt
  Distinct-signers-keep (m ∷ ms) s d =
      let (a, e) = singleton_of_length m.signed_message.operator_ids s.0 in
      let d' : Distinct (a ∷ signers ms) = rw e at d in
      elim (Bool-cases (p m)) [
        | inl kept ↦
            rw (kept, e) (contains-signers-keep ms a d'.0, Distinct-signers-keep ms s.1 d'.1)
        | inr left ↦ rw left (Distinct-signers-keep ms s.1 d'.1)
      ]

  pub Subset-signers-keep :
      (ms : List WrappedQbftMessage) (committee : List ℕ)
      → All IsSingle ms
      → Subset (signers ms) committee
      → Subset (signers (keep p ms)) committee
  unfolding all_operator_ids
  Subset-signers-keep [] committee s h = tt
  Subset-signers-keep (m ∷ ms) committee s h =
      let (a, e) = singleton_of_length m.signed_message.operator_ids s.0 in
      let h' : Subset (a ∷ signers ms) committee = rw e at h in
      elim (Bool-cases (p m)) [
        | inl kept ↦ rw (kept, e) (h'.0, Subset-signers-keep ms committee s.1 h'.1)
        | inr left ↦ rw left (Subset-signers-keep ms committee s.1 h'.1)
      ]

  pub IsSingle-keep : (ms : List WrappedQbftMessage) → All IsSingle ms → All IsSingle (keep p ms)
  IsSingle-keep [] s = tt
  IsSingle-keep (m ∷ ms) s = ground (arith, IsSingle-keep ms s.1)

pub length-signers :
    (ms : List WrappedQbftMessage) → All IsSingle ms → length (signers ms) ≡ length ms
unfolding all_operator_ids
length-signers [] s = refl
length-signers (m ∷ ms) s =
    omega
      (arith, length-append m.signed_message.operator_ids (signers ms), length-signers ms s.1, s.0)

-- Of distinct members, each with one message, the unique operators are the signers.
pub unique_operators-signers :
    (committee : List ℕ) (ms : List WrappedQbftMessage)
    → Distinct (signers ms)
    → Subset (signers ms) committee
    → unique_operators committee (signed_messages ms) ≡ signers ms
unfolding unique_operators
unique_operators-signers committee ms d s =
    rw (keep-Subset (signers ms) committee s) (insert_all-Distinct [] (signers ms) d)
