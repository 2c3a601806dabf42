-- ===== src/Qbft/Container/Quorum.antt =====
-- What `has_quorum` of anchor/common/qbft/src/msg_container.rs finds, whatever the order of the
-- source's hash map.
use anchor.Base.{
  ℕ, ◌+◌, ◌*◌, ◌≤◌, ◌<◌, ◌≡◌, ◌≢◌, refl, ap, ◌∙◌, inl, inr, ◌↔◌, true, ◌||◌, List, [], ◌∷◌, Option,
  none, some, arith, ◌==◌, length, keep, Bool-cases, Option-cases, eq_of_==,
}
use anchor.Base.Maps.{lookup, alter, lookup-alter}
use anchor.Base.Sets.{contains, Distinct}
use anchor.Ssv.Round.{Round}
use anchor.Ssv.Consensus.{Hash256}
use anchor.Qbft.Types.{WrappedQbftMessage}
use anchor.Qbft.Container.{
  MessageContainer, or_zero, count_values, find_quorum, has_quorum, get_messages_for_round,
  get_quorum_of_messages,
}

-- How many of the messages are for the root.
abbrev pub count_root : Hash256 → List WrappedQbftMessage → ℕ
count_root h ms = length (keep (λ m. m.qbft_message.root == h) ms)

abbrev keys : List (ℕ × ℕ) → List ℕ
keys [] = []
keys ((k, _) ∷ m) = k ∷ keys m

contains-keys-alter :
    (f : Option ℕ → ℕ) (k a : ℕ) (m : List (ℕ × ℕ))
    → contains (keys (alter f k m)) a ≡ (k == a || contains (keys m) a)
contains-keys-alter f k a [] = ground arith
contains-keys-alter f k a ((j, v) ∷ m) = ground (arith, contains-keys-alter f k a m)

Distinct-keys-alter :
    (f : Option ℕ → ℕ) (k : ℕ) (m : List (ℕ × ℕ))
    → Distinct (keys m)
    → Distinct (keys (alter f k m))
Distinct-keys-alter f k [] d = (refl, tt)
Distinct-keys-alter f k ((j, v) ∷ m) d =
    ground (arith, contains-keys-alter f k j m, Distinct-keys-alter f k m d.1)

Distinct-count_values :
    (counts : List (ℕ × ℕ)) (ms : List WrappedQbftMessage)
    → Distinct (keys counts)
    → Distinct (keys (count_values counts ms))
unfolding count_values
Distinct-count_values counts [] d = d
Distinct-count_values counts (m ∷ ms) d =
    Distinct-count_values (alter (λ o. or_zero o + 1) m.qbft_message.root counts) ms
      (Distinct-keys-alter (λ o. or_zero o + 1) m.qbft_message.root counts d)

lookup-count_values :
    (counts : List (ℕ × ℕ)) (ms : List WrappedQbftMessage) (h : ℕ)
    → or_zero (lookup h (count_values counts ms)) ≡ or_zero (lookup h counts) + count_root h ms
unfolding count_values
lookup-count_values counts [] h = omega arith
lookup-count_values counts (m ∷ ms) h = ground (
  arith,
  lookup-count_values (alter (λ o. or_zero o + 1) m.qbft_message.root counts) ms h,
  lookup-alter (λ o. or_zero o + 1) m.qbft_message.root h counts,
)

find_quorum-contains :
    (q : ℕ) (m : List (ℕ × ℕ)) (h : ℕ) → find_quorum q m ≡ some h → contains (keys m) h ≡ true
unfolding find_quorum
find_quorum-contains q [] h e = cc
find_quorum-contains q ((v, n) ∷ m) h e = ground (arith, find_quorum-contains q m h)

find_quorum-some :
    (q : ℕ) (m : List (ℕ × ℕ)) (h : ℕ)
    → Distinct (keys m)
    → find_quorum q m ≡ some h
    → q ≤ or_zero (lookup h m)
unfolding find_quorum
find_quorum-some q [] h d e = cc
find_quorum-some q ((v, n) ∷ m) h d e =
    ground (arith, find_quorum-some q m h d.1, find_quorum-contains q m h)

find_quorum-none :
    (q : ℕ) (m : List (ℕ × ℕ)) (h : ℕ) → 0 < q → find_quorum q m ≡ none → or_zero (lookup h m) < q
unfolding find_quorum
find_quorum-none q [] h p e = p
find_quorum-none q ((v, n) ∷ m) h p e = ground (arith, find_quorum-none q m h p)

module _ (c : MessageContainer) (r : Round) where
  -- The value that `has_quorum` returns has a quorum of the round's messages.
  pub has_quorum-some :
      (h : Hash256)
      → has_quorum c r ≡ some h
      → c.quorum_size ≤ count_root h (get_messages_for_round c r)
  unfolding has_quorum get_messages_for_round
  has_quorum-some h e = elim (Option-cases (lookup r c.messages)) [
    | inl missing ↦ ground (arith, missing)
    | inr (ms, found) ↦ ground (
      arith,
      found,
      find_quorum-some c.quorum_size (count_values [] ms) h (Distinct-count_values [] ms tt),
      lookup-count_values [] ms h,
    )
  ]

  -- If it returns none, no value has a quorum.
  pub has_quorum-none :
      (h : Hash256)
      → 0 < c.quorum_size
      → has_quorum c r ≡ none
      → count_root h (get_messages_for_round c r) < c.quorum_size
  unfolding has_quorum get_messages_for_round
  has_quorum-none h p e = elim (Option-cases (lookup r c.messages)) [
    | inl missing ↦ ground (arith, missing)
    | inr (ms, found) ↦ ground (
      arith,
      found,
      find_quorum-none c.quorum_size (count_values [] ms) h p,
      lookup-count_values [] ms h,
    )
  ]

-- Two values share the messages.
pub count_root-disjoint :
    (h k : Hash256) (ms : List WrappedQbftMessage)
    → h ≢ k
    → count_root h ms + count_root k ms ≤ length ms
count_root-disjoint h k [] n = omega arith
count_root-disjoint h k (m ∷ ms) n = ground (arith, count_root-disjoint h k ms n)

-- Below two quorums of messages, `has_quorum` returns a value exactly when that value has a
-- quorum; so the answer does not depend on the order in which the counts are visited.
pub has_quorum_iff :
    (c : MessageContainer) (r : Round) (h : Hash256)
    → 0 < c.quorum_size
    → length (get_messages_for_round c r) < c.quorum_size * 2
    → (has_quorum c r ≡ some h) ↔ (c.quorum_size ≤ count_root h (get_messages_for_round c r))
has_quorum_iff c r h p few = (has_quorum-some c r h, back)
  where
    same :
        (k : Hash256)
        → c.quorum_size ≤ count_root h (get_messages_for_round c r)
        → has_quorum c r ≡ some k
        → k ≡ h
    same k enough e = elim (Bool-cases (k == h)) [
      | inl eq ↦ eq_of_== k h eq
      | inr ne ↦ absurd (
          omega (
            arith,
            count_root-disjoint k h (get_messages_for_round c r) (ground (arith, ne)),
            has_quorum-some c r k e,
          ))
    ]

    back : c.quorum_size ≤ count_root h (get_messages_for_round c r) → has_quorum c r ≡ some h
    back enough = elim (Option-cases (has_quorum c r)) [
      | inl e ↦ absurd (omega (arith, has_quorum-none c r h p e))
      | inr (k, e) ↦ e ∙ ap some (same k enough e)
    ]

-- The messages of the quorum are those of the round for its value, and there are enough of them.
pub get_quorum_of_messages_lem :
    (c : MessageContainer) (r : Round) (h : Hash256)
    → has_quorum c r ≡ some h
    → (get_quorum_of_messages c r
        ≡ keep (λ m. m.qbft_message.root == h) (get_messages_for_round c r))
      × (c.quorum_size ≤ length (get_quorum_of_messages c r))
unfolding get_quorum_of_messages
get_quorum_of_messages_lem c r h e = rw (e, get_quorum_of_messages) (refl, has_quorum-some c r h e)
