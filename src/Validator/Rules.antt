-- ===== src/Validator/Rules.antt =====
-- The rules that both kinds of messages share: roles and forks, time, duties
-- (anchor/message_validator/src/lib.rs).
use anchor.Base.{
  ℕ, ◌+◌, ◌-◌, ◌*◌, ◌/◌, Bool, false, not, ◌||◌, List, [], ◌∷◌, Option, none, some, leb, ltb,
  if◌then◌else◌, length,
}
use anchor.Base.Result.{Result, ok, err, panic, ◌>>=◌, ◌>>◌, guard, map_err}
use anchor.Fork.{Fork, boole, rank, active_fork_config}
use anchor.Ssv.Message.{Bytes}
use anchor.Ssv.MessageId.{
  Role, committee, aggregator, proposer, sync_committee, validator_registration, voluntary_exit,
  aggregator_committee, ptc_attester, proposer_preferences, for_committee, for_validator,
  message_id_duty_executor,
}
use anchor.Validator.Failure.{
  ValidationFailure, role_not_active_before_fork, role_not_active_after_fork,
  role_not_active_before_eth_fork, role_not_active_after_eth_fork, early_slot_message,
  late_slot_message, unexpected_failure, unknown_validator, excessive_duty_count,
  slot_start_time_not_found,
}
use anchor.Validator.DutyState.{OperatorState, is_first_message_for_duty, get_duty_count}
use anchor.Validator.Context.{
  DutiesProvider, Foreign, ValidationContext, slot_start_time, sync_committee_period,
}

-- `stored_slot_count`, the places of a ring; 2 is `LATE_SLOT_ALLOWANCE`.
abbrev pub late_slot_allowance : ℕ
late_slot_allowance = 2

unfoldable pub stored_slot_count : Role → ℕ → ℕ → ℕ
stored_slot_count proposer_preferences slots_per_epoch lookahead =
    (1 + lookahead) * slots_per_epoch + 2 * slots_per_epoch
stored_slot_count _ slots_per_epoch lookahead = 2 * slots_per_epoch + late_slot_allowance + 1

-- What a role needs: a fork to have begun, not to have begun, or nothing.
unfoldable pub role_allowed : Role → Fork → Bool → Result ValidationFailure (Unit {0})
role_allowed aggregator_committee active gloas =
    guard (not (ltb (rank active) (rank boole)))
      (role_not_active_before_fork aggregator_committee active boole)
role_allowed aggregator active gloas =
    guard (not (leb (rank boole) (rank active)))
      (role_not_active_after_fork aggregator active boole)
role_allowed sync_committee active gloas =
    guard (not (leb (rank boole) (rank active)))
      (role_not_active_after_fork sync_committee active boole)
role_allowed validator_registration active gloas =
    guard (not gloas) (role_not_active_after_eth_fork validator_registration)
role_allowed ptc_attester active gloas = guard gloas (role_not_active_before_eth_fork ptc_attester)
role_allowed proposer_preferences active gloas =
    guard gloas (role_not_active_before_eth_fork proposer_preferences)
role_allowed _ active gloas = ok tt

-- `validate_role_for_fork`; the schedule panics where no fork is active.
unfoldable pub validate_role_for_fork :
    Foreign → ValidationContext → ℕ → Result ValidationFailure (Unit {0})
validate_role_for_fork foreign c slot =
    let epoch = slot / c.slots_per_epoch in
    elim (active_fork_config c.fork_schedule epoch) [
      | none ↦ panic
      | some config ↦ role_allowed c.role config.fork (foreign.gloas_enabled epoch)
    ]

-- `CLOCK_ERROR_TOLERANCE`, `EARLY_MESSAGE_MARGIN` and `LATE_MESSAGE_MARGIN` in milliseconds.
abbrev pub clock_error_tolerance : ℕ
clock_error_tolerance = 50

abbrev pub early_message_margin : ℕ
early_message_margin = 1000

abbrev pub late_message_margin : ℕ
late_message_margin = 3000

-- The slot before which a message is early.
unfoldable pub earliest_slot : Role → ℕ → ℕ → ℕ → ℕ
earliest_slot proposer_preferences slots_per_epoch lookahead slot =
    (slot / slots_per_epoch - lookahead) * slots_per_epoch
earliest_slot _ slots_per_epoch lookahead slot = slot

-- `duration_since(..).unwrap_or_default()` is the subtraction of ℕ.
unfoldable pub message_earliness : Foreign → ValidationContext → ℕ → Result ValidationFailure ℕ
message_earliness foreign c slot =
    let from = earliest_slot c.role c.slots_per_epoch foreign.min_seed_lookahead slot in
    slot_start_time foreign from >>= λ slot_start. ok (slot_start - c.received_at)

-- The slots for which a message of a role lives.
unfoldable pub time_to_live : Role → ℕ → ℕ
time_to_live proposer slots_per_epoch = 1 + late_slot_allowance
time_to_live sync_committee slots_per_epoch = 1 + late_slot_allowance
time_to_live ptc_attester slots_per_epoch = 1 + late_slot_allowance
time_to_live proposer_preferences slots_per_epoch = late_slot_allowance
time_to_live _ slots_per_epoch = slots_per_epoch + late_slot_allowance

unfoldable pub message_lateness : Foreign → ValidationContext → ℕ → Result ValidationFailure ℕ
message_lateness foreign c slot = do
  start ←
      map_err (λ _. slot_start_time_not_found slot)
        (slot_start_time foreign (foreign.slot_add slot (time_to_live c.role c.slots_per_epoch)))
  guard (leb (start + late_message_margin) foreign.system_time_max) unexpected_failure
  ok (c.received_at - (start + late_message_margin))

unfoldable pub validate_slot_time :
    Foreign → ValidationContext → ℕ → Result ValidationFailure (Unit {0})
validate_slot_time foreign c slot = do
  earliness ← message_earliness foreign c slot
  guard (leb earliness (clock_error_tolerance + early_message_margin)) early_slot_message
  lateness ← message_lateness foreign c slot
  guard (leb lateness clock_error_tolerance) late_slot_message

-- `id.duty_executor()`, where it is a validator's key.
unfoldable pub validator_key : Foreign → ValidationContext → Result ValidationFailure Bytes
validator_key foreign c =
    elim (message_id_duty_executor foreign.deserialize_key
      c.signed_ssv_message.ssv_message.msg_id) [
        | none ↦ err unknown_validator
        | some (for_committee id) ↦ err unknown_validator
        | some (for_validator key) ↦ ok key
      ]

-- The search for a validator in the sync committee.
unfoldable pub any_in_sync_committee : DutiesProvider → ℕ → List ℕ → Bool
any_in_sync_committee duties period [] = false
any_in_sync_committee duties period (index ∷ indices) =
    duties.is_validator_in_sync_committee period index
    || any_in_sync_committee duties period indices

-- The limit of a committee role: whether the search is made, then the formula.
unfoldable pub committee_duty_limit :
    DutiesProvider → ValidationContext → ℕ → Result ValidationFailure (Option ℕ)
committee_duty_limit duties c slot =
    let indices = c.committee_info.validator_indices in
    let n = length indices in
    let formula = some (if leb c.slots_per_epoch (2 * n) then c.slots_per_epoch else 2 * n) in
    if ltb n (c.slots_per_epoch / 2)
    then (sync_committee_period (slot / c.slots_per_epoch) c.epochs_per_sync_committee_period
        >>= λ period. ok (
            if any_in_sync_committee duties period indices
            then some c.slots_per_epoch
            else formula))
    else ok formula

unfoldable pub duty_limit :
    Foreign → DutiesProvider → ValidationContext → ℕ → Result ValidationFailure (Option ℕ)
duty_limit foreign duties c slot = elim c.role [
  | voluntary_exit ↦
      (validator_key foreign c >>= λ key. ok (some (duties.get_voluntary_exit_duty_count slot key)))
  | aggregator ↦ ok (some 2)
  | validator_registration ↦ ok (some 2)
  | ptc_attester ↦ ok (some 2)
  | committee ↦ committee_duty_limit duties c slot
  | aggregator_committee ↦ committee_duty_limit duties c slot
  | proposer ↦ ok none
  | sync_committee ↦ ok none
  | proposer_preferences ↦ ok (some c.slots_per_epoch)
]

-- The test of the count against the limit.
unfoldable pub check_duty_count :
    ValidationContext → ℕ → OperatorState → ℕ → Result ValidationFailure (Unit {0})
check_duty_count c slot o limit =
    let duty_count = get_duty_count o (slot / c.slots_per_epoch) c.slots_per_epoch in
    if not (is_first_message_for_duty o slot)
    then ok tt
    else guard (ltb duty_count limit) (excessive_duty_count duty_count limit c.role)

unfoldable pub validate_duty_count :
    Foreign
    → DutiesProvider
    → ValidationContext
    → ℕ
    → OperatorState
    → Result ValidationFailure (Unit {0})
validate_duty_count foreign duties c slot o = do
  limit ← duty_limit foreign duties c slot
  elim limit [ none ↦ ok tt | some n ↦ check_duty_count c slot o n ]
