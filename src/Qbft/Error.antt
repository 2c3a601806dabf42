-- ===== src/Qbft/Error.antt =====
-- The errors of the QBFT crate: anchor/common/qbft/src/error.rs.
use anchor.Base.{ℕ}
use anchor.Ssv.Message.{SignedSsvMessageError}

pub data ConfigBuilderError : Type 0 where
  no_participants zero_max_rounds exceeding_starting_round invalid_committee_size :
      ConfigBuilderError
  missing_operator_id operator_not_participant missing_instance_height : ConfigBuilderError

pub data QbftError : Type 0 where
  signer_not_in_committee wrong_height wrong_round past_round invalid_full_data : QbftError
  data_validation_failed missing_operators invalid_data_round wrong_message_type : QbftError
  not_enough_signatures : QbftError
  proposal_not_from_leader proposal_already_received proposal_not_accepted : QbftError
  proposal_missing_data proposal_not_found proposed_data_mismatch : QbftError
  duplicate_proposal : QbftError
  proposal_round_change_justification_no_quorum round_change_justification_no_quorum : QbftError
  round_change_justification_wrong_round round_change_justification_wrong_height : QbftError
  round_change_justification_invalid_message : QbftError
  round_change_justification_not_round_change : QbftError
  round_change_justification_invalid_data_round round_change_justification_decode_failed : QbftError
  round_change_justification_invalid_prepare_root : QbftError
  round_change_justification_not_in_committee : QbftError
  round_change_justification_no_prepare_quorum round_change_justification_multi_signer : QbftError
  round_change_justification_too_big round_change_justification_list_too_big : ℕ → ℕ → QbftError
  prepare_justification_wrong_round prepare_justification_multi_signer : QbftError
  prepare_justification_wrong_height prepare_justification_no_quorum : QbftError
  prepare_justification_decode_failed prepare_justification_not_prepare : QbftError
  prepare_justification_root_mismatch : QbftError
  prepare_justification_too_big prepare_justification_list_too_big : ℕ → ℕ → QbftError
  missing_last_prepared_value : QbftError
  failed_to_aggregate signed_ssv_message_error : SignedSsvMessageError → QbftError
  invalid_state missing_data commit_quorum_mismatch missing_commit : QbftError
