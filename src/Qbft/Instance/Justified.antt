-- ===== src/Qbft/Instance/Justified.antt =====
-- What `validate_proposal_justifications` of anchor/common/qbft/src/lib.rs establishes.
use mathlib.Core.Path.{subst}
use native.Mathlib.Nat.{le_trans}
use anchor.Base.{
  ℕ, ◌≤◌, ◌<◌, ◌≡◌, refl, sym, ◌⊎◌, inl, inr, true, List, [], ◌∷◌, Option, none, some, arith, ltb,
  if◌then◌else◌, every, All, Any, Option-cases, Bool-cases,
}
use anchor.Base.Result.{ok, guard-eq-ok, >>=-eq-ok}
use anchor.Ssv.Round.{Round}
use anchor.Ssv.Message.{SignedSsvMessage}
use anchor.Ssv.Consensus.{Hash256, QbftData, QbftMessage, is_round_change, is_prepare}
use anchor.Qbft.Types.{WrappedQbftMessage}
use anchor.Qbft.Instance.{Qbft, has_quorum, check_committee}
use anchor.Qbft.Instance.Justify.{
  max_round, decode_all, check_prepare, check_single_prepare,
  is_valid_prepare_justification_for_round_and_root, check_prepares, check_prepared_round_change,
  check_round_change, check_round_changes, check_prepare_justifications,
  validate_proposal_justifications,
}

module _ {D : Type 0} (env : QbftData D) (q : Qbft D) where
  -- A prepare of a member of the committee, for the round and the root.
  pub record IsPrepareFor (round : Round) (root : Hash256) (s : SignedSsvMessage) : Type 0 where
    pub signer : ℕ
    pub signed : s.operator_ids ≡ signer ∷ []
    pub member : check_committee q signer ≡ true
    pub message : QbftMessage
    pub decoded : env.decode_qbft s.ssv_message.msg_data ≡ some message
    pub kind : is_prepare message.qbft_message_type ≡ true
    pub height : message.height ≡ q.instance_height
    pub round_fits : message.round ≡ round
    pub root_fits : message.root ≡ root

  -- A round change of members of the committee to the round of `msg`; a value that it says to be
  -- prepared is the root of `msg`, in a round of at most `best`.
  pub record IsRoundChangeFor (msg : QbftMessage) (best : ℕ) (s : SignedSsvMessage) : Type 0 where
    pub members : every (check_committee q) s.operator_ids ≡ true
    pub message : QbftMessage
    pub decoded : env.decode_qbft s.ssv_message.msg_data ≡ some message
    pub kind : is_round_change message.qbft_message_type ≡ true
    pub height : message.height ≡ q.instance_height
    pub round_fits : message.round ≡ msg.round
    pub prepared :
        0 < message.data_round → (message.data_round < message.round) × (message.root ≡ msg.root)
    pub highest : message.data_round ≤ best

  -- A round change that says a value to be prepared in the round.
  pub record IsPreparedIn (round : Round) (s : SignedSsvMessage) : Type 0 where
    pub message : QbftMessage
    pub decoded : env.decode_qbft s.ssv_message.msg_data ≡ some message
    pub kind : is_round_change message.qbft_message_type ≡ true
    pub prepared : message.data_round ≡ round

  prepare-ok :
      (s : SignedSsvMessage) (ids : List ℕ) (round : Round) (root : Hash256)
      → s.operator_ids ≡ ids
      → check_single_prepare env q s ids round root ≡ ok tt
      → IsPrepareFor round root s
  unfolding check_single_prepare check_prepare
  prepare-ok s [] round root e h = absurd (ground arith)
  prepare-ok s (a ∷ b ∷ ids) round root e h = absurd (ground arith)
  prepare-ok s (a ∷ []) round root e h =
      elim (Option-cases (env.decode_qbft s.ssv_message.msg_data)) [
        | inl missing ↦ absurd (ground (arith, missing))
        | inr (p, found) ↦ record {
          signer = a;
          signed = e;
          member = ground (arith, found);
          message = p;
          decoded = found;
          kind = ground (arith, found);
          height = ground (arith, found);
          round_fits = ground (arith, found);
          root_fits = ground (arith, found);
        }
      ]

  prepares-ok :
      (ss : List SignedSsvMessage) (round : Round) (root : Hash256)
      → check_prepares env q ss round root ≡ ok tt
      → All (IsPrepareFor round root) ss
  unfolding check_prepares is_valid_prepare_justification_for_round_and_root
  prepares-ok [] round root h = tt
  prepares-ok (s ∷ ss) round root h =
      let (_, e, h') = >>=-eq-ok (check_single_prepare env q s s.operator_ids round root) _ h in
      (prepare-ok s s.operator_ids round root refl e, prepares-ok ss round root h')

  round_change-ok :
      (msg rc : QbftMessage) (s : SignedSsvMessage)
      → check_round_change env q msg s ≡ ok rc
      → IsRoundChangeFor msg rc.data_round s
  unfolding check_round_change check_prepared_round_change
  round_change-ok msg rc s h = elim (Option-cases (env.decode_qbft s.ssv_message.msg_data)) [
    | inl missing ↦ absurd (ground (arith, missing))
    | inr (p, found) ↦ record {
      members = ground (arith, found);
      message = p;
      decoded = found;
      kind = ground (arith, found);
      height = ground (arith, found);
      round_fits = ground (arith, found);
      prepared = λ z. ground (arith, found);
      highest = ground (arith, found);
    }
  ]

  weaken :
      (msg : QbftMessage) (m n : ℕ) (s : SignedSsvMessage)
      → m ≤ n
      → IsRoundChangeFor msg m s
      → IsRoundChangeFor msg n s
  weaken msg m n s l c = record {
    members = c.members;
    message = c.message;
    decoded = c.decoded;
    kind = c.kind;
    height = c.height;
    round_fits = c.round_fits;
    prepared = c.prepared;
    highest = le_trans c.highest l;
  }

  round_change-IsPreparedIn :
      (msg rc : QbftMessage) (s : SignedSsvMessage)
      → check_round_change env q msg s ≡ ok rc
      → IsPreparedIn rc.data_round s
  unfolding check_round_change check_prepared_round_change
  round_change-IsPreparedIn msg rc s h =
      elim (Option-cases (env.decode_qbft s.ssv_message.msg_data)) [
        | inl missing ↦ absurd (ground (arith, missing))
        | inr (p, found) ↦ record {
          message = p;
          decoded = found;
          kind = ground (arith, found);
          prepared = ground (arith, found);
        }
      ]

  -- The highest round bounds the start and the list.
  round_changes-ok :
      (msg : QbftMessage) (ss : List SignedSsvMessage) (start best : Option QbftMessage)
      → check_round_changes env q msg ss start ≡ ok best
      → (max_round start ≤ max_round best) × All (IsRoundChangeFor msg (max_round best)) ss
  unfolding check_round_changes
  round_changes-ok msg [] start best h = (ground arith, tt)
  round_changes-ok msg (s ∷ ss) start best h =
      let (rc, e, h') = >>=-eq-ok (check_round_change env q msg s) _ h in
      let (up, rest) =
        round_changes-ok msg ss (if ltb (max_round start) rc.data_round then some rc else start)
          best h' in
      (
        ground arith,
        (
          weaken msg rc.data_round (max_round best) s (ground arith) (round_change-ok msg rc s e),
          rest,
        ),
      )

  -- The highest round is that of the start or of a round change of the list.
  round_changes-attained :
      (msg : QbftMessage) (ss : List SignedSsvMessage) (start best : Option QbftMessage)
      → check_round_changes env q msg ss start ≡ ok best
      → (max_round best ≡ max_round start) ⊎ Any (IsPreparedIn (max_round best)) ss
  unfolding check_round_changes
  round_changes-attained msg [] start best h = inl (ground arith)
  round_changes-attained msg (s ∷ ss) start best h =
      let (rc, e, h') = >>=-eq-ok (check_round_change env q msg s) _ h in
      let next = if ltb (max_round start) rc.data_round then some rc else start in
      elim (round_changes-attained msg ss next best h') [
        | inr later ↦ inr (inr later)
        | inl same ↦ elim (Bool-cases (ltb (max_round start) rc.data_round)) [
          | inl higher ↦
              let here : rc.data_round ≡ max_round best = sym (rw higher at same) in
              inr (inl (subst (λ n. IsPreparedIn n s) here (round_change-IsPreparedIn msg rc s e)))
          | inr lower ↦ inl (rw lower at same)
        ]
      ]

  -- What justifies a proposal: round changes of a quorum; without a prepared value among them no
  -- more, otherwise also prepares of a quorum, for the proposal's root in the highest prepared
  -- round, which one of the round changes has and none exceeds.
  pub record IsJustified (msg : QbftMessage) : Type 0 where
    pub round_changes : List SignedSsvMessage
    pub decoded : decode_all env msg.round_change_justification ≡ some round_changes
    pub quorum : has_quorum q round_changes ≡ true
    pub highest : ℕ
    pub carried : All (IsRoundChangeFor msg highest) round_changes
    pub attained : (highest ≡ 0) ⊎ Any (IsPreparedIn highest) round_changes
    pub prepares :
        0 < highest
        → (ps : List SignedSsvMessage) × (decode_all env msg.prepare_justification ≡ some ps)
          × (has_quorum q ps ≡ true)
          × All (IsPrepareFor highest msg.root) ps

  prepared-ok :
      (msg : QbftMessage) (best : Option QbftMessage)
      → check_prepare_justifications env q msg best ≡ ok tt
      → 0 < max_round best
      → (ps : List SignedSsvMessage) × (decode_all env msg.prepare_justification ≡ some ps)
        × (has_quorum q ps ≡ true)
        × All (IsPrepareFor (max_round best) msg.root) ps
  unfolding check_prepare_justifications
  prepared-ok msg none h z = absurd (omega (arith, z))
  prepared-ok msg (some b) h z = elim (Option-cases (decode_all env msg.prepare_justification)) [
    | inl missing ↦ absurd (ground (arith, missing))
    | inr (ps, found) ↦
        let same : msg.root ≡ b.root = ground (arith, found) in
        (
          ps,
          found,
          ground (arith, found),
          rw same (prepares-ok ps b.data_round b.root (ground (arith, found))),
        )
  ]

  -- A proposal that passes carries the round changes of a quorum of members to its round; if one of
  -- them prepared a value, the proposal's root is that value and it carries the prepares of a
  -- quorum of members for it, in the highest round in which one of them prepared a value.
  pub validate_proposal_justifications-IsJustified :
      (w : WrappedQbftMessage)
      → validate_proposal_justifications env q w ≡ ok tt
      → IsJustified w.qbft_message
  unfolding validate_proposal_justifications
  validate_proposal_justifications-IsJustified w h =
      elim (Option-cases (decode_all env w.qbft_message.round_change_justification)) [
        | inl missing ↦ absurd (ground (arith, missing))
        | inr (rcs, found) ↦
            let (quorum, h₁) = guard-eq-ok (has_quorum q rcs) _ _ (rw found at h) in
            let (best, e, h₂) =
              >>=-eq-ok (check_round_changes env q w.qbft_message rcs none) _ h₁ in
            record {
              round_changes = rcs;
              decoded = found;
              quorum = quorum;
              highest = max_round best;
              carried = (round_changes-ok w.qbft_message rcs none best e).1;
              attained = round_changes-attained w.qbft_message rcs none best e;
              prepares = prepared-ok w.qbft_message best h₂;
            }
      ]
