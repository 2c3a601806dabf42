-- ===== src/Validator.antt =====
-- The validator of messages, anchor/message_validator/src; here the leader and the rounds that it
-- expects (consensus_message.rs).
pub mod Failure
pub mod Leader
pub mod Counts
pub mod SignerState
pub mod DutyState
pub mod Context
pub mod Rules
pub mod Duty
pub mod Justifications
pub mod Consensus
pub mod Partial
pub mod Entry
pub mod Machine
pub mod Admission
pub mod Unchanged
pub mod Retention
pub mod Bounded
pub mod Replay
pub mod Sound
pub mod History
use anchor.Base.{
  ℕ, ◌+◌, ◌-◌, ◌*◌, ◌/◌, ◌%◌, ◌^◌, ◌==◌, List, [], ◌∷◌, Option, none, some, leb, ltb, if◌then◌else◌,
  length, get_elem?, is_empty, Bool, true, false,
}
use anchor.Base.Result.{Result, ok, err, panic}
use anchor.Ssv.Round.{Round, first_round}
use anchor.Fork.{Fork, alan, boole, ForkSchedule, active_fork_config}
use anchor.Qbft.Leader.{sort_unstable}
use anchor.Validator.Failure.{ValidationFailure, non_existent_committee_id}

-- `active_fork(epoch) >= Fork::Boole`; `none` is the panic of `active_fork`.
unfoldable pub boole_active : ForkSchedule → ℕ → Option Bool
boole_active s epoch = elim (active_fork_config s epoch) [
  | none ↦ none
  | some c ↦ elim c.fork [ alan ↦ some false | boole ↦ some true ]
]

-- The sums of `u64` numbers wrap, as in a release build; the round is at least 1.
unfoldable pub proposer_index : ℕ → Round → ℕ → ℕ → ℕ
proposer_index height round eth_epoch size =
    let first_round_index = height % size in
    ((first_round_index + round - first_round + eth_epoch) % 2 ^ 64) % size

-- The panics are those of the division by `slots_per_epoch`, of the schedule and of the index.
unfoldable pub round_robin_proposer :
    ℕ → Round → List ℕ → ℕ → ForkSchedule → Result ValidationFailure ℕ
round_robin_proposer height round committee slots_per_epoch fork_schedule =
    if is_empty committee
    then err non_existent_committee_id
    else let sorted = sort_unstable committee in
      if slots_per_epoch == 0
      then panic
      else let epoch = height / slots_per_epoch in
        elim (boole_active fork_schedule epoch) [
          | none ↦ panic
          | some active ↦
              let index =
                proposer_index height round (if active then epoch else 0) (length sorted) in
              elim (get_elem? sorted index) [ none ↦ panic | some l ↦ ok l ]
        ]

-- `QUICK_TIMEOUT_THRESHOLD`, and `QUICK_TIMEOUT` and `SLOW_TIMEOUT` in seconds.
abbrev pub quick_timeout_threshold : ℕ
quick_timeout_threshold = 8

abbrev pub quick_timeout : ℕ
quick_timeout = 2

abbrev pub slow_timeout : ℕ
slow_timeout = 120

-- The time since the start of the slot in whole seconds, as both divisions take it.
unfoldable pub current_estimated_round : ℕ → Round
current_estimated_round since_slot_start =
    let current_quick_round = first_round + since_slot_start / quick_timeout in
    if leb current_quick_round quick_timeout_threshold
    then current_quick_round
    else quick_timeout_threshold
      + first_round
      + (since_slot_start - quick_timeout * quick_timeout_threshold) / slow_timeout
