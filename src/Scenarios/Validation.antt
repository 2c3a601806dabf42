-- ===== src/Scenarios/Validation.antt =====
-- A prepare that the validator accepts, and the theorems on the validator on it.
use anchor.Base.{ℕ, ◌+◌, ◌*◌, ◌%◌, ◌≤◌, ◌≡◌, refl, ap, true, false, [], ◌∷◌, none, some, arith}
use anchor.Base.Result.{ok, err}
use anchor.Ssv.Message.{Bytes, SignedSsvMessage, ssv_consensus_msg_type}
use anchor.Ssv.Consensus.{QbftMessage, prepare}
use anchor.Ssv.MessageId.{committee, max_round, is_qbft_role, message_id_role, role_of_bytes}
use anchor.Fork.{active_fork_config, latest_fork}
use anchor.Ssv.Round
use anchor.Validator.{current_estimated_round}
use anchor.Validator.DutyState.{
  DutyState, new_duty_state, get_signer_state, operator_state, new_operator_state,
  is_first_message_for_duty, get_duty_count, get_or_create_operator, update_for_consensus_message,
  update_operator, open_signer_state, set_signer_state, write_signer_state,
}
use anchor.Validator.Justifications.{
  validate_consensus_message_semantics, check_signers, check_full_data, check_max_round,
  validate_justifications, justification_types, check_list,
}
use anchor.Validator.Context.{
  Foreign, DutiesProvider, CommitteeInfo, assigned, ValidationContext, slot_start_time,
  sync_committee_period, verify_message_signatures, signer_keys, verify_each,
  verify_message_signature,
}
use anchor.Validator.Consensus.{
  validate_consensus_message, continue_with, check_consensus_message, validate_qbft_logic,
  check_proposal_leader, for_each_signer, check_operator, check_signer_state, check_single,
  validate_round_in_allowed_spread, estimate, validate_qbft_message_by_duty_logic,
}
use anchor.Validator.Duty.{validate_beacon_duty}
use anchor.Validator.Rules.{
  validate_slot_time, validate_role_for_fork, role_allowed, message_earliness, earliest_slot,
  message_lateness, time_to_live, validate_duty_count, duty_limit, committee_duty_limit,
  any_in_sync_committee, check_duty_count, stored_slot_count,
}
use anchor.Validator.Failure.{duplicated_message}
use anchor.Validator.Counts.{validate_consensus_message_limits, record_consensus_message}
use anchor.Validator.SignerState.{update_signer}
use anchor.Validator.Admission.{Accepted, validate_consensus_message-Accepted}
use anchor.Validator.Unchanged.{Same, validate_consensus_message_refused}
use anchor.Validator.Bounded.{WellFormed, new_duty_state-WellFormed}
use anchor.Validator.Bounded.Preserved.{validate_consensus_message-WellFormed}
use anchor.Validator.Replay.{again, accepted_once}
use anchor.Validator.Retention.{window_without_collision}
use anchor.Validator.Machine.{Validator, skip_validation, validate_bytes, clean}
use anchor.Validator.Sound.{Sound}
use anchor.Validator.History.{started, validated, cleaned, History-Sound}
use anchor.Scenarios.{four}
use anchor.Scenarios.Forks.{schedule}

abbrev identifier : Bytes
identifier =
    1 ∷ 2 ∷ 3 ∷ 4 ∷ 0 ∷ 0 ∷ 0 ∷ 0 ∷ 0 ∷ 0 ∷ 0 ∷ 0 ∷ 0 ∷ 0 ∷ 0 ∷ 0 ∷ 0 ∷ 0 ∷ 0 ∷ 0 ∷ 0 ∷ 0 ∷ 0 ∷ 0
    ∷ 9 ∷ 9 ∷ 9 ∷ 9 ∷ 9 ∷ 9 ∷ 9 ∷ 9 ∷ 9 ∷ 9 ∷ 9 ∷ 9 ∷ 9 ∷ 9 ∷ 9 ∷ 9 ∷ 9 ∷ 9 ∷ 9 ∷ 9 ∷ 9 ∷ 9 ∷ 9 ∷ 9
    ∷ 9 ∷ 9 ∷ 9 ∷ 9 ∷ 9 ∷ 9 ∷ 9 ∷ 9 ∷ []

abbrev the_prepare : QbftMessage
the_prepare = record {
  qbft_message_type = prepare;
  height = 1;
  round = 1;
  identifier = identifier;
  root = 7;
  data_round = 0;
  round_change_justification = [];
  prepare_justification = [];
}

abbrev envelope : SignedSsvMessage
envelope = record {
  signatures = (0 ∷ []) ∷ [];
  operator_ids = 3 ∷ [];
  ssv_message = record {
    msg_type = ssv_consensus_msg_type;
    msg_id = identifier;
    msg_data = 0 ∷ [];
  };
  full_data = [];
}

-- Slots of 12 seconds from second 1000 on; every signature verifies.
abbrev foreign : Foreign
foreign = record {
  sha256 = λ bytes. 7;
  decode_qbft = λ bytes. some the_prepare;
  decode_signed = λ bytes. some envelope;
  decode_partial = λ bytes. none;
  deserialize_key = λ bytes. some bytes;
  verify = λ key m signature. true;
  start_of = λ slot. some (1000000 + slot * 12000);
  now = some 1;
  slot_add = λ slot n. slot + n;
  system_time_max = 1000000000000;
  gloas_enabled = λ epoch. false;
  gloas_fork_epoch = none;
  min_seed_lookahead = 1;
}

abbrev duties : DutiesProvider
duties = record {
  is_validator_in_sync_committee = λ period index. false;
  is_epoch_known_for_proposers = λ epoch. true;
  is_validator_proposer_at_slot = λ slot index. true;
  ptc_assignment_at_slot = λ slot index. assigned;
  proposer_assignment_at_slot = λ slot key. assigned;
  local_proposer_assignment_at_slot = λ slot key. true;
  get_voluntary_exit_duty_count = λ slot key. 0;
}

abbrev context : ValidationContext
context = record {
  signed_ssv_message = envelope;
  role = committee;
  committee_info = record { committee_members = four; validator_indices = 5 ∷ [] };
  received_at = 1013000;
  slots_per_epoch = 32;
  epochs_per_sync_committee_period = 256;
  sync_committee_size = 512;
  operator_pub_keys = (3, 1 ∷ []) ∷ [];
  fork_schedule = schedule;
}

abbrev empty_state : DutyState
empty_state = new_duty_state 67

abbrev after : DutyState
after = (validate_consensus_message foreign duties context empty_state).1

accepted : (validate_consensus_message foreign duties context empty_state).0 ≡ ok the_prepare
unfolding validate_consensus_message continue_with check_consensus_message validate_role_for_fork
    role_allowed active_fork_config latest_fork validate_consensus_message_semantics check_signers
    check_full_data check_max_round max_round is_qbft_role message_id_role role_of_bytes
    validate_justifications justification_types check_list validate_qbft_logic check_proposal_leader
    for_each_signer check_operator get_signer_state operator_state new_operator_state
    get_or_create_operator validate_round_in_allowed_spread slot_start_time estimate
    current_estimated_round Round.add validate_qbft_message_by_duty_logic validate_beacon_duty
    validate_slot_time message_earliness earliest_slot message_lateness time_to_live
    validate_duty_count duty_limit committee_duty_limit sync_committee_period any_in_sync_committee
    check_duty_count is_first_message_for_duty get_duty_count verify_message_signatures signer_keys
    verify_each verify_message_signature
accepted = refl

outcome : validate_consensus_message foreign duties context empty_state ≡ (ok the_prepare, after)
outcome = ap (λ r. (r, after)) accepted

-- The second time, the prepare is one too many.
refused : (validate_consensus_message foreign duties context after).0 ≡ err duplicated_message
unfolding validate_consensus_message continue_with check_consensus_message validate_role_for_fork
    role_allowed active_fork_config latest_fork validate_consensus_message_semantics check_signers
    check_full_data check_max_round max_round is_qbft_role message_id_role role_of_bytes
    validate_justifications justification_types check_list validate_qbft_logic check_proposal_leader
    for_each_signer check_operator get_signer_state operator_state new_operator_state
    get_or_create_operator validate_round_in_allowed_spread slot_start_time estimate
    current_estimated_round Round.add validate_qbft_message_by_duty_logic validate_beacon_duty
    validate_slot_time message_earliness earliest_slot message_lateness time_to_live
    validate_duty_count duty_limit committee_duty_limit sync_committee_period any_in_sync_committee
    check_duty_count is_first_message_for_duty get_duty_count verify_message_signatures signer_keys
    verify_each verify_message_signature update_for_consensus_message update_operator
    open_signer_state set_signer_state write_signer_state update_signer record_consensus_message
    check_signer_state check_single validate_consensus_message_limits
refused = refl

well_formed : WellFormed empty_state
well_formed = new_duty_state-WellFormed 67 (omega arith)

accepted_once_example : ¬ (
    validate_consensus_message foreign duties (again context context) after
    ≡ (ok the_prepare, after))
accepted_once_example =
    accepted_once foreign foreign duties duties context context empty_state after after the_prepare
      the_prepare 3 well_formed refl refl outcome

validate_consensus_message_refused_example :
    Same after (validate_consensus_message foreign duties context after).1
validate_consensus_message_refused_example =
    validate_consensus_message_refused foreign duties context after
      (validate_consensus_message foreign duties context after).1 duplicated_message
      (ap (λ r. (r, (validate_consensus_message foreign duties context after).1)) refused)

validate_consensus_message-WellFormed_example : WellFormed after
validate_consensus_message-WellFormed_example =
    validate_consensus_message-WellFormed foreign duties context empty_state well_formed

validate_consensus_message-Accepted_example : Accepted foreign context the_prepare
validate_consensus_message-Accepted_example =
    validate_consensus_message-Accepted foreign duties context empty_state after the_prepare
      (omega arith) outcome

in_time : (slot : ℕ) → slot ≤ 1 → validate_slot_time foreign context slot ≡ ok tt
unfolding validate_slot_time message_earliness earliest_slot message_lateness time_to_live
    slot_start_time
in_time slot h = ground arith

window_without_collision_example :
    ¬ (0 % stored_slot_count committee 32 1 ≡ 1 % stored_slot_count committee 32 1)
window_without_collision_example =
    window_without_collision foreign context 1000000 12000 (λ slot t e. ground arith) (omega arith)
      (omega arith) 0 1 0 1 refl (in_time 0 (omega arith)) (in_time 1 (omega arith)) (omega arith)
      (omega arith) (omega arith)

abbrev known : CommitteeInfo
known = record { committee_members = four; validator_indices = 5 ∷ [] }

abbrev at_start : Validator
at_start = record {
  network_state = record {
    get_committee_info_by_committee_id = λ id. some known;
    get_committee_info_by_validator_pk = λ key. some known;
    get_operator_key = λ id. some (1 ∷ []);
  };
  duty_state_map = λ id. none;
  slots_per_epoch = 32;
  epochs_per_sync_committee_period = 256;
  sync_committee_size = 512;
  fork_schedule = schedule;
}

-- The prepare arrives at the new validator, which drops what is outdated afterwards.
History-Sound_example :
    Sound (clean (validate_bytes foreign duties at_start (0 ∷ []) skip_validation 1013000).1 1)
History-Sound_example =
    History-Sound
      (clean (validate_bytes foreign duties at_start (0 ∷ []) skip_validation 1013000).1 1)
      (cleaned (validate_bytes foreign duties at_start (0 ∷ []) skip_validation 1013000).1 1 (
        validated foreign duties at_start (0 ∷ []) skip_validation 1013000
          (started at_start (omega arith) (λ id. refl))))
