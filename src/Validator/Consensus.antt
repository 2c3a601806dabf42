-- ===== src/Validator/Consensus.antt =====
-- Consensus messages against the state of duties: validate_qbft_logic,
-- validate_round_in_allowed_spread, validate_qbft_message_by_duty_logic and
-- validate_consensus_message of anchor/message_validator/src/consensus_message.rs. A function that
-- takes the state of duties returns it too, also where it fails.
use anchor.Base.{
  ℕ, ◌-◌, ◌/◌, Bool, false, not, ◌&&◌, ◌||◌, List, [], ◌∷◌, Option, none, some, ◌==◌, ltb,
  if◌then◌else◌, length, is_empty,
}
use anchor.Base.Result.{Result, ok, err, panic, ◌>>=◌, ◌>>◌, guard, ok_or}
use anchor.Ssv.Round.{from_u64, first_round}
use anchor.Ssv.Round
use anchor.Ssv.Message.{SignedSsvMessage}
use anchor.Ssv.Consensus.{QbftMessage, is_proposal, Hash256}
use anchor.Ssv.MessageId.{is_committee_role}
use anchor.Validator.{round_robin_proposer, current_estimated_round}
use anchor.Validator.Failure.{
  ValidationFailure, signers_missing, signer_not_leader, round_already_advanced,
  different_proposal_data, decided_with_same_signers, round_overflow,
  estimated_round_not_in_allowed_spread, slot_already_advanced, undecodable_message_data,
}
use anchor.Validator.Counts.{validate_consensus_message_limits}
use anchor.Validator.SignerState.{SignerState, has_seen_signers}
use anchor.Validator.DutyState.{
  DutyState, OperatorState, operator_state, get_or_create_operator, get_signer_state,
  update_for_consensus_message,
}
use anchor.Validator.Context.{
  Foreign, DutiesProvider, ValidationContext, slot_start_time, verify_message_signatures, first,
}
use anchor.Validator.Rules.{validate_role_for_fork, validate_slot_time, validate_duty_count}
use anchor.Validator.Duty.{validate_beacon_duty}
use anchor.Validator.Justifications.{validate_consensus_message_semantics}

-- What a validation returns: its result, and the state of duties.
abbrev pub Outcome : Type 0 → Type 0
Outcome A = Result ValidationFailure A × DutyState

-- The rest runs in the state left, if the first part passed.
unfoldable pub continue_with : {A B : Type 0} → Outcome A → (A → DutyState → Outcome B) → Outcome B
continue_with (panic, d) rest = (panic, d)
continue_with (err e, d) rest = (err e, d)
continue_with (ok a, d) rest = rest a d

-- For each signer in turn, the state of its operator, made if there is none, is tested.
unfoldable pub for_each_signer :
    (ℕ → OperatorState → Result ValidationFailure (Unit {0})) → List ℕ → DutyState → Outcome Unit
for_each_signer test [] d = (ok tt, d)
for_each_signer test (signer ∷ signers) d =
    continue_with (test signer (operator_state d signer), get_or_create_operator d signer)
      λ _ made. for_each_signer test signers made

-- The signer of a proposal is the leader of its round.
unfoldable pub check_leads : ValidationContext → QbftMessage → Result ValidationFailure (Unit {0})
check_leads c q = do
  signer ← ok_or (first c.signed_ssv_message.operator_ids) signers_missing
  round ← from_u64 q.round
  leader ←
      round_robin_proposer q.height round c.committee_info.committee_members c.slots_per_epoch
        c.fork_schedule
  guard (signer == leader) (signer_not_leader signer leader)

unfoldable pub check_proposal_leader :
    ValidationContext → QbftMessage → Result ValidationFailure (Unit {0})
check_proposal_leader c q = if is_proposal q.qbft_message_type then check_leads c q else ok tt

abbrev pub differs : Option Hash256 → Hash256 → Bool
differs none root = false
differs (some hash) root = not (hash == root)

-- The rules for the one signer of a message that is not decided.
unfoldable pub check_single :
    SignedSsvMessage → QbftMessage → SignerState → Result ValidationFailure (Unit {0})
check_single m q s =
    guard (not (ltb q.round s.round)) (round_already_advanced q.round s.round)
    >> (if q.round == s.round
        then (guard (not (not (is_empty m.full_data) && differs s.proposal_hash q.root))
              different_proposal_data
            >> validate_consensus_message_limits s.message_counts m q.qbft_message_type)
        else ok tt)

-- The rules for a signer that has a state for the slot.
unfoldable pub check_signer_state :
    Foreign → SignedSsvMessage → QbftMessage → SignerState → Result ValidationFailure (Unit {0})
check_signer_state foreign m q s =
    if length m.operator_ids == 1
    then check_single m q s
    else if ltb 1 (length m.operator_ids)
    then guard (not (has_seen_signers foreign.sha256 s m.operator_ids)) decided_with_same_signers
    else ok tt

unfoldable pub check_operator :
    Foreign
    → SignedSsvMessage
    → QbftMessage
    → ℕ
    → OperatorState
    → Result ValidationFailure (Unit {0})
check_operator foreign m q signer o = elim (get_signer_state o q.height) [
  | none ↦ ok tt
  | some s ↦ check_signer_state foreign m q s
]

-- `MAX_ALLOWED_ROUNDS_FUTURE`
abbrev pub max_allowed_rounds_future : ℕ
max_allowed_rounds_future = 3

-- The round expected at a time in milliseconds, for a slot that starts at another.
unfoldable pub estimate : ℕ → ℕ → ℕ
estimate received_at slot_start =
    if ltb slot_start received_at
    then current_estimated_round ((received_at - slot_start) / 1000)
    else first_round

unfoldable pub validate_round_in_allowed_spread :
    Foreign → ValidationContext → QbftMessage → Result ValidationFailure (Unit {0})
validate_round_in_allowed_spread foreign c q = do
  slot_start ← slot_start_time foreign q.height
  highest ←
      ok_or (Round.add (estimate c.received_at slot_start) max_allowed_rounds_future) round_overflow
  guard (not (ltb q.round first_round || ltb highest q.round)) estimated_round_not_in_allowed_spread

unfoldable pub validate_qbft_logic :
    Foreign → ValidationContext → QbftMessage → DutyState → Outcome Unit
validate_qbft_logic foreign c q d =
    let m = c.signed_ssv_message in
    continue_with (check_proposal_leader c q, d)
      λ _ d. continue_with (for_each_signer (check_operator foreign m q) m.operator_ids d) λ _ d.
        if length m.operator_ids == 1
        then (validate_round_in_allowed_spread foreign c q, d)
        else (ok tt, d)

-- The signer must not have advanced to a later slot.
unfoldable pub check_max_slot :
    QbftMessage → ℕ → OperatorState → Result ValidationFailure (Unit {0})
check_max_slot q signer o =
    guard (not (ltb q.height o.max_slot)) (slot_already_advanced q.height o.max_slot)

unfoldable pub validate_qbft_message_by_duty_logic :
    Foreign → DutiesProvider → ValidationContext → QbftMessage → DutyState → Outcome Unit
validate_qbft_message_by_duty_logic foreign duties c q d =
    let signers = c.signed_ssv_message.operator_ids in
    let advanced =
      if not (is_committee_role c.role)
      then for_each_signer (check_max_slot q) signers d
      else (ok tt, d) in
    continue_with advanced λ _ d.
      continue_with
        (
          validate_beacon_duty foreign duties c q.height false
              >> validate_slot_time foreign c q.height,
          d,
        )
        λ _ d.
          for_each_signer (λ signer o. validate_duty_count foreign duties c q.height o) signers d

-- The checks of `validate_consensus_message` behind the decoding, in their order.
unfoldable pub check_consensus_message :
    Foreign → DutiesProvider → ValidationContext → QbftMessage → DutyState → Outcome Unit
check_consensus_message foreign duties c q d =
    let m = c.signed_ssv_message in
    let form =
      validate_role_for_fork foreign c q.height
      >> validate_consensus_message_semantics foreign m q c.committee_info.committee_members
          c.operator_pub_keys in
    continue_with (form, d)
      λ _ d. continue_with (validate_qbft_logic foreign c q d) λ _ d.
        continue_with (validate_qbft_message_by_duty_logic foreign duties c q d)
          λ _ d. (verify_message_signatures foreign m c.operator_pub_keys, d)

unfoldable pub validate_consensus_message :
    Foreign → DutiesProvider → ValidationContext → DutyState → Outcome QbftMessage
validate_consensus_message foreign duties c d =
    let m = c.signed_ssv_message in
    elim (foreign.decode_qbft m.ssv_message.msg_data) [
      | none ↦ (err undecodable_message_data, d)
      | some q ↦
          continue_with (check_consensus_message foreign duties c q d)
            λ _ d. (ok q, update_for_consensus_message foreign.sha256 d m q m.operator_ids)
    ]
