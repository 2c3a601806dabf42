-- ===== src/Validator/Partial.antt =====
-- Partial signature messages: anchor/message_validator/src/partial_signature.rs.
use anchor.Base.{
  ℕ, ◌+◌, ◌*◌, ◌/◌, Bool, true, false, not, ◌&&◌, ◌||◌, List, [], ◌∷◌, none, some, ◌==◌, leb, ltb,
  if◌then◌else◌, length, is_empty, every,
}
use anchor.Base.Result.{Result, ok, err, panic, ◌>>=◌, ◌>>◌, guard, ok_or}
use anchor.Base.Maps.{lookup, put}
use anchor.Base.Sets.{contains}
use anchor.Ssv.MessageId.{
  Role, committee, aggregator, proposer, sync_committee, validator_registration, voluntary_exit,
  aggregator_committee, ptc_attester, proposer_preferences, is_committee_role, monotonic_slot_role,
}
use anchor.Ssv.PartialSig.{
  PartialSignatureKind, post_consensus, randao_partial_sig, selection_proof_partial_sig,
  contribution_proofs, validator_registration_sig, voluntary_exit_sig,
  aggregator_committee_partial_sig, ptc_attester_sig, proposer_preferences_sig, request_auth,
  PartialSignatureMessage, PartialSignatureMessages, PartialSignatureMessagesError, empty,
  inconsistent_signers, zero_signer, common_signer, kind_value,
}
use anchor.Validator.Failure.{
  ValidationFailure, undecodable_message_data, validator_registration_retired, signers_missing,
  partial_sig_one_signer, full_data_not_in_consensus_message, no_partial_signature_messages,
  partial_signature_type_role_mismatch, signers_inconsistent, signer_is_zero,
  inconsistent_validator_indices, validator_index_mismatch, slot_already_advanced,
  too_many_partial_signature_messages, too_many_validator_index_occurrences,
}
use anchor.Validator.Counts.{validate_partial_signature_limits}
use anchor.Validator.SignerState.{max_request_auth_distinct_roots}
use anchor.Validator.DutyState.{
  DutyState, OperatorState, operator_state, get_or_create_operator, get_signer_state,
  update_for_partial_signature,
}
use anchor.Validator.Context.{
  Foreign, DutiesProvider, ValidationContext, verify_single_signer, first,
}
use anchor.Validator.Rules.{validate_role_for_fork, validate_slot_time, validate_duty_count}
use anchor.Validator.Duty.{validate_beacon_duty}
use anchor.Validator.Consensus.{Outcome, continue_with}

-- The derived equality of kinds.
abbrev pub same_kind : PartialSignatureKind → PartialSignatureKind → Bool
same_kind a b = kind_value a == kind_value b

unfoldable pub partial_signature_type_matches_role : PartialSignatureKind → Role → Bool
partial_signature_type_matches_role kind committee = same_kind kind post_consensus
partial_signature_type_matches_role kind ptc_attester = same_kind kind ptc_attester_sig
partial_signature_type_matches_role kind proposer_preferences =
    same_kind kind proposer_preferences_sig || same_kind kind request_auth
partial_signature_type_matches_role kind aggregator =
    same_kind kind post_consensus || same_kind kind selection_proof_partial_sig
partial_signature_type_matches_role kind proposer =
    same_kind kind post_consensus || same_kind kind randao_partial_sig
partial_signature_type_matches_role kind sync_committee =
    same_kind kind post_consensus || same_kind kind contribution_proofs
partial_signature_type_matches_role kind validator_registration =
    same_kind kind validator_registration_sig
partial_signature_type_matches_role kind voluntary_exit = same_kind kind voluntary_exit_sig
partial_signature_type_matches_role kind aggregator_committee =
    same_kind kind post_consensus || same_kind kind aggregator_committee_partial_sig

abbrev pub is_request_auth_batch_role_kind : Role → PartialSignatureKind → Bool
is_request_auth_batch_role_kind proposer_preferences kind = same_kind kind request_auth
is_request_auth_batch_role_kind _ kind = false

abbrev pub is_proposer : Role → Bool
is_proposer proposer = true
is_proposer _ = false

abbrev pub is_validator_registration : Role → Bool
is_validator_registration validator_registration = true
is_validator_registration _ = false

unfoldable pub is_gloas_proposer_post :
    Foreign → ValidationContext → PartialSignatureMessages → Bool
is_gloas_proposer_post foreign c p =
    is_proposer c.role
    && (same_kind p.kind post_consensus && foreign.gloas_enabled (p.slot / c.slots_per_epoch))

abbrev pub lift_signer : Result PartialSignatureMessagesError ℕ → Result ValidationFailure ℕ
lift_signer (ok signer) = ok signer
lift_signer panic = panic
lift_signer (err empty) = err no_partial_signature_messages
lift_signer (err inconsistent_signers) = err signers_inconsistent
lift_signer (err zero_signer) = err signer_is_zero

-- `any` of the indices that differ from the first one.
abbrev pub one_validator : List PartialSignatureMessage → Bool
one_validator [] = true
one_validator (head ∷ rest) = every (λ m. m.validator_index == head.validator_index) (head ∷ rest)

abbrev pub one_signer : List ℕ → Result ValidationFailure ℕ
one_signer (signer ∷ []) = ok signer
one_signer _ = err partial_sig_one_signer

unfoldable pub validate_partial_signature_message_semantics :
    Foreign → ValidationContext → PartialSignatureMessages → Result ValidationFailure ℕ
validate_partial_signature_message_semantics foreign c p = do
  signer ← one_signer c.signed_ssv_message.operator_ids
  guard (is_empty c.signed_ssv_message.full_data) full_data_not_in_consensus_message
  guard (partial_signature_type_matches_role p.kind c.role) partial_signature_type_role_mismatch
  inner_signer ← lift_signer (common_signer p.messages)
  guard (inner_signer == signer) signers_inconsistent
  let same_validator =
      is_request_auth_batch_role_kind c.role p.kind || is_gloas_proposer_post foreign c p
  guard (not same_validator || one_validator p.messages) inconsistent_validator_indices
  let indices = c.committee_info.validator_indices
  guard
      (is_committee_role c.role
        || (is_empty indices || every (λ m. contains indices m.validator_index) p.messages))
      validator_index_mismatch
  ok signer

-- The loop that counts the messages of each validator.
unfoldable pub check_index_occurrences :
    ℕ → List (ℕ × ℕ) → List PartialSignatureMessage → Result ValidationFailure (Unit {0})
check_index_occurrences limit counts [] = ok tt
check_index_occurrences limit counts (m ∷ messages) =
    let index = m.validator_index in
    let count : ℕ = elim (lookup index counts) [ none ↦ 1 | some n ↦ n + 1 ] in
    guard (leb count limit) (too_many_validator_index_occurrences index count limit)
    >> check_index_occurrences limit (put index count counts) messages

-- `MAX_SIGNATURES_IN_SYNC_COMMITTEE`, and `SYNC_COMMITTEE_SUBNET_COUNT`
abbrev pub max_signatures_in_sync_committee : ℕ
max_signatures_in_sync_committee = 13

abbrev pub sync_committee_subnet_count : ℕ
sync_committee_subnet_count = 4

abbrev pub min : ℕ → ℕ → ℕ
min a b = if leb a b then a else b

-- The most messages that a packet may have.
unfoldable pub message_limit : Foreign → ValidationContext → PartialSignatureMessages → ℕ
message_limit foreign c p =
    let validator_count = length c.committee_info.validator_indices in
    elim c.role [
      | committee ↦ min (2 * validator_count) (validator_count + c.sync_committee_size)
      | sync_committee ↦ max_signatures_in_sync_committee
      | aggregator_committee ↦
          min (5 * validator_count)
            (validator_count + sync_committee_subnet_count * c.sync_committee_size)
      | proposer_preferences ↦
          if is_request_auth_batch_role_kind proposer_preferences p.kind
          then max_request_auth_distinct_roots
          else 1
      | proposer ↦ if is_gloas_proposer_post foreign c p then 2 else 1
      | _ ↦ 1
    ]

-- The rules on the number of messages, by role.
unfoldable pub check_message_count :
    Foreign → ValidationContext → PartialSignatureMessages → Result ValidationFailure (Unit {0})
check_message_count foreign c p =
    let limit = message_limit foreign c p in
    guard (leb (length p.messages) limit)
      (too_many_partial_signature_messages (length p.messages) limit)
    >> elim c.role [
      | committee ↦ check_index_occurrences 2 [] p.messages
      | aggregator_committee ↦ check_index_occurrences 5 [] p.messages
      | _ ↦ ok tt
    ]

-- A signer of a role whose slots ascend must not have advanced.
unfoldable pub check_slot_advanced :
    Role → PartialSignatureMessages → OperatorState → Result ValidationFailure (Unit {0})
check_slot_advanced role p o =
    guard (not (monotonic_slot_role role && (not (o.max_slot == 0) && ltb p.slot o.max_slot)))
      (slot_already_advanced p.slot o.max_slot)

-- The limits on the kinds of messages, where the slot has a state.
unfoldable pub check_kind_count :
    PartialSignatureMessages → OperatorState → Result ValidationFailure (Unit {0})
check_kind_count p o = elim (get_signer_state o p.slot) [
  | none ↦ ok tt
  | some s ↦ validate_partial_signature_limits s.message_counts p.kind
]

-- What the duty logic asks of the operator's state.
unfoldable pub check_partial_duty :
    Foreign
    → DutiesProvider
    → ValidationContext
    → PartialSignatureMessages
    → OperatorState
    → Result ValidationFailure (Unit {0})
check_partial_duty foreign duties c p o = do
  check_slot_advanced c.role p o
  validate_beacon_duty foreign duties c p.slot (same_kind p.kind randao_partial_sig)
  check_kind_count p o
  validate_slot_time foreign c p.slot
  validate_duty_count foreign duties c p.slot o
  check_message_count foreign c p

unfoldable pub validate_partial_sig_messages_by_duty_logic :
    Foreign
    → DutiesProvider
    → ValidationContext
    → PartialSignatureMessages
    → DutyState
    → Outcome Unit
validate_partial_sig_messages_by_duty_logic foreign duties c p d =
    elim (first c.signed_ssv_message.operator_ids) [
      | none ↦ (err signers_missing, d)
      | some signer ↦ (
        check_partial_duty foreign duties c p (operator_state d signer),
        get_or_create_operator d signer,
      )
    ]

-- Registrations are ignored after the epoch of Gloas, by the current slot.
unfoldable pub check_retired : Foreign → ValidationContext → Result ValidationFailure (Unit {0})
check_retired foreign c =
    let retired : Bool = elim foreign.gloas_fork_epoch [
      | none ↦ false
      | some gloas_epoch ↦ elim foreign.now [
        | none ↦ false
        | some current_slot ↦ ltb gloas_epoch (current_slot / c.slots_per_epoch)
      ]
    ] in
    guard (not (is_validator_registration c.role && retired)) validator_registration_retired

-- The checks before the duty logic, and the signer.
unfoldable pub check_partial_form :
    Foreign → ValidationContext → PartialSignatureMessages → Result ValidationFailure ℕ
check_partial_form foreign c p = do
  validate_role_for_fork foreign c p.slot
  signer ← validate_partial_signature_message_semantics foreign c p
  check_retired foreign c
  ok signer

-- `validate_partial_signature_message`; the signer is the one that the semantics found first.
unfoldable pub validate_partial_signature_message :
    Foreign → DutiesProvider → ValidationContext → DutyState → Outcome PartialSignatureMessages
validate_partial_signature_message foreign duties c d =
    let m = c.signed_ssv_message in
    elim (foreign.decode_partial m.ssv_message.msg_data) [
      | none ↦ (err undecodable_message_data, d)
      | some p ↦
          continue_with (check_partial_form foreign c p, d)
            λ signer d.
              continue_with (validate_partial_sig_messages_by_duty_logic foreign duties c p d)
                λ _ d.
                  continue_with (verify_single_signer foreign c signer, d)
                    λ _ d.
                      continue_with (ok_or (first m.operator_ids) signers_missing, d)
                        λ signer d.
                          continue_with (update_for_partial_signature d p signer) λ _ d. (ok p, d)
    ]
