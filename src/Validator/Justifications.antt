-- ===== src/Validator/Justifications.antt =====
-- The form of a consensus message and of what justifies it: validate_consensus_message_semantics,
-- validate_justifications and validate_justification_list of
-- anchor/message_validator/src/consensus_message.rs.
use anchor.Base.{
  ℕ, Bool, true, false, not, ◌&&◌, ◌||◌, List, [], ◌∷◌, Option, none, some, ◌==◌, leb, ltb,
  if◌then◌else◌, length, is_empty,
}
use anchor.Base.Result.{Result, ok, panic, ◌>>=◌, ◌>>◌, guard, ok_or}
use anchor.Ssv.Committee.{quorum_size}
use anchor.Ssv.Message.{Bytes, SignedSsvMessage}
use anchor.Ssv.Consensus.{QbftMessage, is_commit, is_prepare, is_proposal, is_round_change}
use anchor.Ssv.MessageId.{Role, is_qbft_role, max_round, message_id_role}
use anchor.Validator.Failure.{
  ValidationFailure, non_decided_with_multiple_signers, decided_not_enough_signers,
  prepare_or_commit_with_full_data, invalid_hash, zero_round, unexpected_consensus_message,
  round_too_high, mismatched_identifier, unexpected_prepare_justifications,
  unexpected_round_change_justifications, malformed_justifications,
}
use anchor.Validator.Context.{Foreign, verify_message_signatures}

abbrev pub bytes_equal : Bytes → Bytes → Bool
bytes_equal [] [] = true
bytes_equal (a ∷ as') (b ∷ bs) = a == b && bytes_equal as' bs
bytes_equal _ _ = false

module _ (foreign : Foreign) (operator_pub_keys : List (ℕ × Bytes)) where
  -- Which types carry justifications.
  unfoldable pub justification_types : QbftMessage → Result ValidationFailure (Unit {0})
  justification_types q = do
    guard (is_empty q.prepare_justification || is_proposal q.qbft_message_type)
        unexpected_prepare_justifications
    guard
        (is_empty q.round_change_justification
          || (is_proposal q.qbft_message_type || is_round_change q.qbft_message_type))
        unexpected_round_change_justifications

  -- `validate_justification_list`, where the justifications of each are not looked at.
  unfoldable pub check_list_inner : List Bytes → Result ValidationFailure (Unit {0})
  check_list_inner [] = ok tt
  check_list_inner (bytes ∷ justifications) = do
    m ← ok_or (foreign.decode_signed bytes) malformed_justifications
    verify_message_signatures foreign m operator_pub_keys
    check_list_inner justifications

  -- `validate_justifications` with `check_inner_justifications` false.
  unfoldable pub validate_justifications_inner : QbftMessage → Result ValidationFailure (Unit {0})
  validate_justifications_inner q = do
    justification_types q
    check_list_inner q.prepare_justification
    check_list_inner q.round_change_justification

  -- `validate_justification_list`, where they are.
  unfoldable pub check_list : List Bytes → Result ValidationFailure (Unit {0})
  check_list [] = ok tt
  check_list (bytes ∷ justifications) = do
    m ← ok_or (foreign.decode_signed bytes) malformed_justifications
    verify_message_signatures foreign m operator_pub_keys
    q ← ok_or (foreign.decode_qbft m.ssv_message.msg_data) malformed_justifications
    validate_justifications_inner q
    check_list justifications

  -- `validate_justifications` with `check_inner_justifications` true.
  unfoldable pub validate_justifications : QbftMessage → Result ValidationFailure (Unit {0})
  validate_justifications q = do
    justification_types q
    check_list q.prepare_justification
    check_list q.round_change_justification

-- The rules for several signers: only a commit, and at least a quorum of signers.
unfoldable pub check_signers :
    SignedSsvMessage → QbftMessage → ℕ → Result ValidationFailure (Unit {0})
check_signers m q required_quorum =
    let signers = length m.operator_ids in
    if ltb 1 signers
    then (guard (is_commit q.qbft_message_type) (non_decided_with_multiple_signers signers 1)
        >> guard (leb required_quorum signers) (decided_not_enough_signers signers required_quorum))
    else ok tt

-- The rules for full data: not in a prepare or a single commit, and of the hash of the root.
unfoldable pub check_full_data :
    Foreign → SignedSsvMessage → QbftMessage → Result ValidationFailure (Unit {0})
check_full_data foreign m q =
    let forbidden =
      is_prepare q.qbft_message_type
      || (is_commit q.qbft_message_type && length m.operator_ids == 1) in
    if not (is_empty m.full_data)
    then (guard (not forbidden) prepare_or_commit_with_full_data
        >> guard (foreign.sha256 m.full_data == q.root) invalid_hash)
    else ok tt

-- The bound on the round by the role; `unwrap` panics where the identifier has none.
unfoldable pub check_max_round : Option Role → ℕ → Result ValidationFailure (Unit {0})
check_max_round none round = panic
check_max_round (some role) round = do
  guard (is_qbft_role role) unexpected_consensus_message
  bound ← ok_or (max_round role) unexpected_consensus_message
  guard (leb round bound) round_too_high

unfoldable pub validate_consensus_message_semantics :
    Foreign
    → SignedSsvMessage
    → QbftMessage
    → List ℕ
    → List (ℕ × Bytes)
    → Result ValidationFailure (Unit {0})
validate_consensus_message_semantics foreign m q committee_members operator_pub_keys = do
  check_signers m q (quorum_size (length committee_members))
  check_full_data foreign m q
  guard (not (q.round == 0)) zero_round
  check_max_round (message_id_role m.ssv_message.msg_id) q.round
  guard (bytes_equal q.identifier m.ssv_message.msg_id) mismatched_identifier
  validate_justifications foreign operator_pub_keys q
