-- ===== src/Qbft/Agreement.antt =====
-- Agreement on a round: what two tallies with a quorum have in common
-- (anchor/common/qbft/src/msg_container.rs and lib.rs).
use anchor.Base.{ℕ, ◌≤◌, ◌<◌, ◌≡◌, true, false, List, arith, ◌==◌, length, keep}
use anchor.Base.Sets.{contains, Distinct, Subset, common, outside, contains-common, Distinct-common}
use anchor.Ssv.Committee.{get_f, quorum_size, is_valid_committee_size}
use anchor.Ssv.Committee.Quorum.{quorum_intersection}
use anchor.Ssv.Round.{Round}
use anchor.Ssv.Consensus.{Hash256}
use anchor.Qbft.Types.{WrappedQbftMessage}
use anchor.Qbft.Container.{MessageContainer, get_messages_for_round}
use anchor.Qbft.Container.Quorum.{count_root}
use anchor.Qbft.Tally.{
  IsTally, signers, Distinct-signers-keep, Subset-signers-keep, IsSingle-keep, length-signers,
}

-- Who voted for the value in the round.
abbrev pub voters : MessageContainer → Round → Hash256 → List ℕ
voters c r h = signers (keep (λ m. m.qbft_message.root == h) (get_messages_for_round c r))

module _ (committee : List ℕ) (c : MessageContainer) (t : IsTally committee c) (r : Round)
    (h : Hash256) where
  pub voters-Distinct : Distinct (voters c r h)
  voters-Distinct =
      Distinct-signers-keep _ (get_messages_for_round c r) (t.single r)
        (rw (t.signed r) (t.valid.distinct r))

  pub voters-Subset : Subset (voters c r h) committee
  voters-Subset =
      Subset-signers-keep _ (get_messages_for_round c r) committee (t.single r)
        (rw (t.signed r) (t.members r))

  pub length-voters : length (voters c r h) ≡ count_root h (get_messages_for_round c r)
  length-voters =
      let votes =
        keep (λ (m : WrappedQbftMessage). m.qbft_message.root == h) (get_messages_for_round c r) in
      omega (
        arith,
        length-signers votes (
            IsSingle-keep (λ m. m.qbft_message.root == h) (get_messages_for_round c r)
              (t.single r)),
      )

-- If two nodes of a canonical committee count a quorum of votes in a round, one for h and one for k, more than
-- f members voted for h at the first and for k at the second.
pub quorum_overlap :
    (committee : List ℕ) (c d : MessageContainer) (r : Round) (h k : Hash256)
    → is_valid_committee_size (length committee) ≡ true
    → IsTally committee c
    → IsTally committee d
    → quorum_size (length committee) ≤ count_root h (get_messages_for_round c r)
    → quorum_size (length committee) ≤ count_root k (get_messages_for_round d r)
    → get_f (length committee) < length (common (voters c r h) (voters d r k))
quorum_overlap committee c d r h k v tc td ec ed =
    quorum_intersection committee (voters c r h) (voters d r k) v
      (voters-Distinct committee c tc r h) (voters-Distinct committee d td r k)
      (voters-Subset committee c tc r h) (voters-Subset committee d td r k)
      (omega (arith, ec, length-voters committee c tc r h))
      (omega (arith, ed, length-voters committee d td r k))

-- So if at most f operators are faulty, and every other operator votes for one value in the round
-- wherever its votes are seen, then h = k: no two nodes decide differently in a round.
pub counted_agreement :
    (committee faulty : List ℕ) (c d : MessageContainer) (r : Round) (h k : Hash256)
    → is_valid_committee_size (length committee) ≡ true
    → length faulty ≤ get_f (length committee)
    → ((a : ℕ) (x y : Hash256)
        → contains faulty a ≡ false
        → contains (voters c r x) a ≡ true
        → contains (voters d r y) a ≡ true
        → x ≡ y)
    → IsTally committee c
    → IsTally committee d
    → quorum_size (length committee) ≤ count_root h (get_messages_for_round c r)
    → quorum_size (length committee) ≤ count_root k (get_messages_for_round d r)
    → h ≡ k
counted_agreement committee faulty c d r h k v few honest tc td ec ed =
    let xs = voters c r h in
    let ys = voters d r k in
    let (a, both, sound) =
      outside (common xs ys) faulty (Distinct-common xs ys (voters-Distinct committee c tc r h))
        (omega (arith, quorum_overlap committee c d r h k v tc td ec ed)) in
    let (first, second) = contains-common a xs ys both in honest a h k sound first second
