-- ===== src/Validator/Duty.antt =====
-- Whether a validator has the duty of a message: `validate_beacon_duty` of
-- anchor/message_validator/src/lib.rs.
use anchor.Base.{ℕ, ◌*◌, ◌/◌, Bool, true, false, not, ◌&&◌, none, some, ◌==◌, leb, if◌then◌else◌}
use anchor.Base.Result.{Result, ok, ◌>>=◌, guard, ok_or}
use anchor.Ssv.MessageId.{proposer, sync_committee, ptc_attester, proposer_preferences}
use anchor.Validator.Failure.{ValidationFailure, unexpected_failure, no_duty}
use anchor.Validator.Context.{
  DutiesProvider, DutyAssignment, not_assigned, Foreign, ValidationContext, sync_committee_period,
  single_validator_index, first,
}
use anchor.Validator.Rules.{validator_key}

abbrev pub is_not_assigned : DutyAssignment → Bool
is_not_assigned not_assigned = true
is_not_assigned _ = false

-- Whether a RANDAO signature is let through for want of duties: `None` of the clock fails, if the
-- conditions before it hold.
unfoldable pub randao_tolerated :
    Foreign → DutiesProvider → ValidationContext → ℕ → Bool → Result ValidationFailure Bool
randao_tolerated foreign duties c slot randao_msg =
    let epoch = slot / c.slots_per_epoch in
    if randao_msg && epoch * c.slots_per_epoch == slot
    then (ok_or foreign.now unexpected_failure >>= λ now.
        ok (leb now slot && not (duties.is_epoch_known_for_proposers epoch)))
    else ok false

-- The case of a proposer that is not let through.
unfoldable pub check_proposer :
    DutiesProvider → ValidationContext → ℕ → Result ValidationFailure (Unit {0})
check_proposer duties c slot = do
  index ← single_validator_index c
  guard (duties.is_validator_proposer_at_slot slot index) no_duty

unfoldable pub check_preferences :
    Foreign → DutiesProvider → ValidationContext → ℕ → Result ValidationFailure (Unit {0})
check_preferences foreign duties c slot = do
  key ← validator_key foreign c
  guard
      (not (
        is_not_assigned (duties.proposer_assignment_at_slot slot key)
        && not (duties.local_proposer_assignment_at_slot slot key)))
      no_duty

unfoldable pub check_ptc :
    DutiesProvider → ValidationContext → ℕ → Result ValidationFailure (Unit {0})
check_ptc duties c slot = elim (first c.committee_info.validator_indices) [
  | none ↦ ok tt
  | some index ↦ guard (not (is_not_assigned (duties.ptc_assignment_at_slot slot index))) no_duty
]

unfoldable pub check_sync_committee :
    DutiesProvider → ValidationContext → ℕ → Result ValidationFailure (Unit {0})
check_sync_committee duties c slot = do
  period ← sync_committee_period (slot / c.slots_per_epoch) c.epochs_per_sync_committee_period
  index ← single_validator_index c
  guard (duties.is_validator_in_sync_committee period index) no_duty

unfoldable pub validate_beacon_duty :
    Foreign → DutiesProvider → ValidationContext → ℕ → Bool → Result ValidationFailure (Unit {0})
validate_beacon_duty foreign duties c slot randao_msg = elim c.role [
  | proposer ↦
      (randao_tolerated foreign duties c slot randao_msg >>= λ tolerated.
      if tolerated then ok tt else check_proposer duties c slot)
  | proposer_preferences ↦ check_preferences foreign duties c slot
  | ptc_attester ↦ check_ptc duties c slot
  | sync_committee ↦ check_sync_committee duties c slot
  | _ ↦ ok tt
]
