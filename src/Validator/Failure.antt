-- ===== src/Validator/Failure.antt =====
-- The failures of validation: anchor/message_validator/src/lib.rs. Texts meant for a reader, and
-- values that only such texts show, are left out.
use anchor.Base.{ℕ}
use anchor.Base.Result.{Result, ok, err}
use anchor.Fork.{Fork}
use anchor.Ssv.Message.{
  SignedSsvMessageError, too_many_signatures, wrong_rsa_signature_size, too_many_operator_ids,
  full_data_too_long, no_signers, signers_and_signatures_with_different_length, zero_signer,
  no_signatures, duplicated_signer, ssv_message_error, empty_data, ssv_data_too_big,
}
use anchor.Ssv.MessageId.{Role}

pub data ValidationFailure : Type 0 where
  wrong_domain no_share_metadata unknown_validator validator_liquidated : ValidationFailure
  validator_not_attesting validator_registration_retired : ValidationFailure
  early_slot_message late_slot_message : ValidationFailure
  slot_already_advanced round_already_advanced : ℕ → ℕ → ValidationFailure
  decided_with_same_signers : ValidationFailure
  pub_sub_data_too_big : ℕ → ValidationFailure
  incorrect_topic topic_fork_mismatch unknown_message_slot : ValidationFailure
  non_existent_committee_id round_too_high validator_index_mismatch no_duty : ValidationFailure
  estimated_round_not_in_allowed_spread data_is_empty mismatched_identifier : ValidationFailure
  signature_verification pub_sub_message_has_no_data malformed_pub_sub_message : ValidationFailure
  nil_signed_ssv_message nil_ssv_message data_too_big invalid_role : ValidationFailure
  unexpected_consensus_message signers_missing wrong_signature_size : ValidationFailure
  signer_is_zero signer_not_in_committee signer_repeated : ValidationFailure
  signer_not_leader : ℕ → ℕ → ValidationFailure
  signers_not_sorted signers_inconsistent invalid_hash full_data_hash : ValidationFailure
  undecodable_message_data event_message unknown_ssv_message_type : ValidationFailure
  unknown_qbft_message_type invalid_partial_signature_type : ValidationFailure
  partial_signature_type_role_mismatch : ValidationFailure
  non_decided_with_multiple_signers decided_not_enough_signers : ℕ → ℕ → ValidationFailure
  different_proposal_data malformed_justifications : ValidationFailure
  unexpected_prepare_justifications unexpected_round_change_justifications : ValidationFailure
  no_partial_signature_messages no_validators signatures_missing : ValidationFailure
  operator_not_found : ℕ → ValidationFailure
  numbers_of_signers_and_signatures_differ partial_sig_one_signer : ValidationFailure
  prepare_or_commit_with_full_data full_data_not_in_consensus_message : ValidationFailure
  too_many_validator_index_occurrences : ℕ → ℕ → ℕ → ValidationFailure
  zero_round round_overflow duplicated_message : ValidationFailure
  invalid_partial_signature_type_count too_many_distinct_signing_roots : ValidationFailure
  relayed_duplicate_message : ValidationFailure
  too_many_partial_signature_messages : ℕ → ℕ → ValidationFailure
  inconsistent_validator_indices encode_operators : ValidationFailure
  slot_start_time_not_found : ℕ → ValidationFailure
  signature_verification_failed : ValidationFailure
  excessive_duty_count : ℕ → ℕ → Role → ValidationFailure
  sync_committee_period_calculation_failure unexpected_failure : ValidationFailure
  role_not_active_before_fork role_not_active_after_fork : Role → Fork → Fork → ValidationFailure
  role_not_active_before_eth_fork role_not_active_after_eth_fork : Role → ValidationFailure

-- `gossipsub::MessageAcceptance`
pub data MessageAcceptance : Type 0 where
  accept reject ignore : MessageAcceptance

-- `From<&ValidationFailure> for MessageAcceptance`
unfoldable pub acceptance_of_failure : ValidationFailure → MessageAcceptance
acceptance_of_failure wrong_domain = ignore
acceptance_of_failure no_share_metadata = ignore
acceptance_of_failure unknown_validator = ignore
acceptance_of_failure validator_liquidated = ignore
acceptance_of_failure validator_not_attesting = ignore
acceptance_of_failure validator_registration_retired = ignore
acceptance_of_failure early_slot_message = ignore
acceptance_of_failure late_slot_message = ignore
acceptance_of_failure (slot_already_advanced _ _) = ignore
acceptance_of_failure (round_already_advanced _ _) = ignore
acceptance_of_failure decided_with_same_signers = ignore
acceptance_of_failure (pub_sub_data_too_big _) = ignore
acceptance_of_failure incorrect_topic = ignore
acceptance_of_failure non_existent_committee_id = ignore
acceptance_of_failure round_too_high = ignore
acceptance_of_failure round_overflow = ignore
acceptance_of_failure validator_index_mismatch = ignore
acceptance_of_failure (excessive_duty_count _ _ _) = ignore
acceptance_of_failure no_duty = ignore
acceptance_of_failure estimated_round_not_in_allowed_spread = ignore
acceptance_of_failure too_many_distinct_signing_roots = ignore
acceptance_of_failure relayed_duplicate_message = ignore
acceptance_of_failure _ = reject

-- `From<SignedSSVMessageError>`
unfoldable pub failure_of_error : SignedSsvMessageError → ValidationFailure
failure_of_error (wrong_rsa_signature_size _ _ _) = wrong_signature_size
failure_of_error no_signers = signers_missing
failure_of_error no_signatures = signatures_missing
failure_of_error zero_signer = signer_is_zero
failure_of_error duplicated_signer = signer_repeated
failure_of_error signers_and_signatures_with_different_length =
    numbers_of_signers_and_signatures_differ
failure_of_error (ssv_message_error empty_data) = data_is_empty
failure_of_error (ssv_message_error (ssv_data_too_big _ _)) = data_too_big
failure_of_error (too_many_signatures _ _) = unexpected_failure
failure_of_error (too_many_operator_ids _ _) = unexpected_failure
failure_of_error (full_data_too_long _ _) = unexpected_failure

-- `map_err(ValidationFailure::from)`
abbrev pub map_error {ℓ} :
    {A : Type ℓ} → Result SignedSsvMessageError A → Result ValidationFailure A
map_error (ok a) = ok a
map_error (err e) = err (failure_of_error e)
map_error Result.panic = Result.panic
