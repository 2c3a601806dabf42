-- ===== src/Qbft/Instance/Justify.antt =====
-- Justifications: `is_valid_prepare_justification_for_round_and_root`,
-- `validate_proposal_justifications` and `justify_round_change_quorum` of
-- anchor/common/qbft/src/lib.rs.
use anchor.Base.{
  ℕ, not, ◌&&◌, List, [], ◌∷◌, Option, none, some, ltb, leb, ◌==◌, if◌then◌else◌, length, every,
  keep, is_empty,
}
use anchor.Base.Result.{Result, ok, err, ◌>>=◌, ◌>>◌, guard, ok_or}
use anchor.Ssv.Round.{Round}
use anchor.Ssv.Message.{Bytes, SignedSsvMessage}
use anchor.Ssv.Consensus.{Hash256, QbftData, QbftMessage, is_prepare, is_round_change}
use anchor.Qbft.Error.{
  QbftError, prepare_justification_multi_signer, signer_not_in_committee,
  prepare_justification_decode_failed, prepare_justification_not_prepare,
  prepare_justification_wrong_height, prepare_justification_wrong_round,
  prepare_justification_root_mismatch, prepare_justification_no_quorum,
  round_change_justification_decode_failed, proposal_round_change_justification_no_quorum,
  round_change_justification_multi_signer, round_change_justification_not_in_committee,
  round_change_justification_not_round_change, round_change_justification_wrong_round,
  round_change_justification_wrong_height, round_change_justification_invalid_data_round,
  round_change_justification_invalid_prepare_root, round_change_justification_no_prepare_quorum,
}
use anchor.Qbft.Types.{WrappedQbftMessage}
use anchor.Qbft.Container.{get_messages_for_round}
use anchor.Qbft.Instance.{
  Qbft, RcJustificationOutcome, highest_prepared, prepared_exists_but_data_missing, no_prepared,
  check_committee, has_quorum, signed_messages,
}

-- `max_prepared_round`
abbrev pub max_round : Option QbftMessage → ℕ
max_round none = 0
max_round (some rc) = rc.data_round

-- `max_by_key` on the prepared round: of equal ones, the last.
unfoldable pub max_by_data_round :
    Option WrappedQbftMessage → List WrappedQbftMessage → Option WrappedQbftMessage
max_by_data_round best [] = best
max_by_data_round none (m ∷ ms) = max_by_data_round (some m) ms
max_by_data_round (some b) (m ∷ ms) =
    max_by_data_round
      (some (if leb b.qbft_message.data_round m.qbft_message.data_round then m else b)) ms

module _ {D : Type 0} (env : QbftData D) where
  -- `try_decode_signed_ssv_messages`
  unfoldable pub decode_all : List Bytes → Option (List SignedSsvMessage)
  decode_all [] = some []
  decode_all (b ∷ bs) = elim (env.decode_signed b) [
    | none ↦ none
    | some m ↦ elim (decode_all bs) [ none ↦ none | some ms ↦ some (m ∷ ms) ]
  ]

  abbrev pub try_decode_signed_ssv_messages :
      List Bytes → QbftError → Result QbftError (List SignedSsvMessage)
  try_decode_signed_ssv_messages messages decode_err = ok_or (decode_all messages) decode_err

  -- The message inside is a prepare of this instance, for the round and the root.
  unfoldable pub check_prepare :
      Qbft D → QbftMessage → Round → Hash256 → Result QbftError (Unit {0})
  check_prepare q p round root = do
    guard (is_prepare p.qbft_message_type) prepare_justification_not_prepare
    guard (p.height == q.instance_height) prepare_justification_wrong_height
    guard (p.round == round) prepare_justification_wrong_round
    guard (p.root == root) prepare_justification_root_mismatch

  -- The `let [operator_id] = … else`, and what follows.
  unfoldable pub check_single_prepare :
      Qbft D → SignedSsvMessage → List ℕ → Round → Hash256 → Result QbftError (Unit {0})
  unfolding check_prepare
  check_single_prepare q justification (operator_id ∷ []) round root = do
    guard (length justification.signatures == 1) prepare_justification_multi_signer
    guard (check_committee q operator_id) signer_not_in_committee
    p ←
        ok_or (env.decode_qbft justification.ssv_message.msg_data)
          prepare_justification_decode_failed
    check_prepare q p round root
  check_single_prepare q justification _ round root = err prepare_justification_multi_signer

  unfoldable pub is_valid_prepare_justification_for_round_and_root :
      Qbft D → SignedSsvMessage → Round → Hash256 → Result QbftError (Unit {0})
  unfolding check_single_prepare
  is_valid_prepare_justification_for_round_and_root q justification round root =
      check_single_prepare q justification justification.operator_ids round root

  -- The loops over a list of prepares.
  unfoldable pub check_prepares :
      Qbft D → List SignedSsvMessage → Round → Hash256 → Result QbftError (Unit {0})
  check_prepares q [] round root = ok tt
  check_prepares q (j ∷ js) round root =
      is_valid_prepare_justification_for_round_and_root q j round root
      >> check_prepares q js round root

  -- The part of the loop's body for a round change that prepared a value.
  unfoldable pub check_prepared_round_change :
      Qbft D → QbftMessage → QbftMessage → Result QbftError (Unit {0})
  check_prepared_round_change q msg rc = do
    guard (ltb rc.data_round rc.round) round_change_justification_invalid_data_round
    guard (msg.root == rc.root) round_change_justification_invalid_prepare_root
    inner ←
        try_decode_signed_ssv_messages rc.round_change_justification
          round_change_justification_decode_failed
    guard (has_quorum q inner) round_change_justification_no_prepare_quorum
    check_prepares q inner rc.data_round rc.root

  -- The loop's body for one round change; the result is the decoded message.
  unfoldable pub check_round_change :
      Qbft D → QbftMessage → SignedSsvMessage → Result QbftError QbftMessage
  unfolding check_prepared_round_change
  check_round_change q msg signed = do
    guard (length signed.operator_ids == 1 && length signed.signatures == 1)
        round_change_justification_multi_signer
    guard (every (check_committee q) signed.operator_ids)
        round_change_justification_not_in_committee
    rc ←
        ok_or (env.decode_qbft signed.ssv_message.msg_data) round_change_justification_decode_failed
    guard (is_round_change rc.qbft_message_type) round_change_justification_not_round_change
    guard (rc.round == msg.round) round_change_justification_wrong_round
    guard (rc.height == q.instance_height) round_change_justification_wrong_height
    if ltb 0 rc.data_round then check_prepared_round_change q msg rc else ok tt
    ok rc

  -- The loop over the round changes. It keeps the first with the highest prepared round; without
  -- one, the highest round is 0.
  unfoldable pub check_round_changes :
      Qbft D
      → QbftMessage
      → List SignedSsvMessage
      → Option QbftMessage
      → Result QbftError (Option QbftMessage)
  check_round_changes q msg [] max_prepared = ok max_prepared
  check_round_changes q msg (s ∷ ss) max_prepared = check_round_change q msg s >>= λ rc.
      check_round_changes q msg ss
        (if ltb (max_round max_prepared) rc.data_round then some rc else max_prepared)

  -- The checks of the proposal's prepares, if a value was prepared.
  unfoldable pub check_prepare_justifications :
      Qbft D → QbftMessage → Option QbftMessage → Result QbftError (Unit {0})
  check_prepare_justifications q msg none = ok tt
  check_prepare_justifications q msg (some max_prepared) = do
    prepares ←
        try_decode_signed_ssv_messages msg.prepare_justification prepare_justification_no_quorum
    guard (has_quorum q prepares) prepare_justification_no_quorum
    guard (msg.root == max_prepared.root) prepare_justification_root_mismatch
    check_prepares q prepares max_prepared.data_round max_prepared.root

  unfoldable pub validate_proposal_justifications :
      Qbft D → WrappedQbftMessage → Result QbftError (Unit {0})
  validate_proposal_justifications q w = do
    round_changes ←
        try_decode_signed_ssv_messages w.qbft_message.round_change_justification
          round_change_justification_decode_failed
    guard (has_quorum q round_changes) proposal_round_change_justification_no_quorum
    max_prepared ← check_round_changes q w.qbft_message round_changes none
    check_prepare_justifications q w.qbft_message max_prepared

  -- The full data of the highest prepared round change, if it is there, fits its hash and is valid.
  unfoldable pub justify_by : Qbft D → WrappedQbftMessage → RcJustificationOutcome D
  justify_by q w =
      let claimed_hash = w.qbft_message.root in
      if is_empty w.signed_message.full_data
      then prepared_exists_but_data_missing claimed_hash
      else elim (env.from_ssz_bytes w.signed_message.full_data) [
        | none ↦ prepared_exists_but_data_missing claimed_hash
        | some value ↦
            if env.hash value == claimed_hash && env.validate value q.start_data
            then highest_prepared (record { hash = claimed_hash; value = value })
            else prepared_exists_but_data_missing claimed_hash
      ]

  unfoldable pub justify_round_change_quorum : Qbft D → RcJustificationOutcome D
  unfolding justify_by
  justify_round_change_quorum q =
      let msgs = get_messages_for_round q.round_change_container q.current_round in
      if not (has_quorum q (signed_messages msgs))
      then no_prepared
      else elim (max_by_data_round none (keep (λ m. not (m.qbft_message.data_round == 0)) msgs)) [
        | none ↦ no_prepared
        | some w ↦ justify_by q w
      ]
