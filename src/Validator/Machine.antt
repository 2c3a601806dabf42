-- ===== src/Validator/Machine.antt =====
-- The validator with its state: `Validator` of anchor/message_validator/src/lib.rs. The map from
-- message identifiers to states of duties is a function.
use anchor.Base.{ℕ, ◌+◌, ◌*◌, ◌/◌, List, [], ◌∷◌, Option, none, some, ◌==◌, if◌then◌else◌}
use anchor.Base.Result.{Result, ok, err, panic, ◌>>=◌, ◌>>◌, guard, ok_or}
use anchor.Fork.{ForkSchedule, Fork, alan, boole, rank, active_fork_config}
use anchor.Fork.Lifecycle.{config_of}
use anchor.Ssv.Message.{Bytes, SsvMessage, SignedSsvMessage}
use anchor.Ssv.Consensus.{Hash256}
use anchor.Ssv.MessageId.{
  Role, DutyExecutor, for_committee, for_validator, message_id_duty_executor, message_id_domain,
  is_committee_role,
}
use anchor.Subnet.{SubnetCalculationError, from_committee_alan, from_operators, subnet_count}
use anchor.Qbft.Leader.{sort_unstable}
use anchor.Validator.Failure.{
  ValidationFailure, MessageAcceptance, accept, acceptance_of_failure, unknown_message_slot,
  undecodable_message_data, incorrect_topic, topic_fork_mismatch, wrong_domain,
  non_existent_committee_id, unknown_validator,
}
use anchor.Validator.SignerState.{committee_id}
use anchor.Validator.DutyState.{DutyState, new_duty_state, outdated}
use anchor.Validator.Context.{Foreign, DutiesProvider, ValidationContext, CommitteeInfo}
use anchor.Validator.Rules.{stored_slot_count}
use anchor.Validator.Justifications.{bytes_equal}
use anchor.Validator.Entry.{
  ValidatedSsvMessage, extract_slot, validate_structure_and_role, validate_ssv_message_in,
}

-- The number that bytes spell, the most significant first.
abbrev pub from_be : ℕ → Bytes → ℕ
from_be n [] = n
from_be n (b ∷ bs) = from_be (n * 256 + b) bs

-- A parsed topic of anchor/subnet_service/src/topic.rs.
pub record ParsedTopic : Type 0 where
  pub subnet_id : ℕ
  pub fork : Fork

pub data TopicContext : Type 0 where
  skip_validation : TopicContext
  validate_topic : ParsedTopic → TopicContext

-- What the validator asks of `NetworkState` of anchor/database/src.
pub record NetworkState : Type 0 where
  pub get_committee_info_by_committee_id : Bytes → Option CommitteeInfo
  pub get_committee_info_by_validator_pk : Bytes → Option CommitteeInfo
  -- `get_operator`, its RSA key.
  pub get_operator_key : ℕ → Option Bytes

-- `Validator`: its settings, and the map of the states of duties.
pub record Validator : Type 0 where
  pub network_state : NetworkState
  pub duty_state_map : Bytes → Option DutyState
  pub slots_per_epoch : ℕ
  pub epochs_per_sync_committee_period : ℕ
  pub sync_committee_size : ℕ
  pub fork_schedule : ForkSchedule

-- `subnet_for_committee_with_operators_at_slot` of subnet_service/src/service.rs.
unfoldable pub subnet_at_slot :
    Foreign → ForkSchedule → ℕ → Hash256 → List ℕ → ℕ → Result SubnetCalculationError ℕ
subnet_at_slot foreign schedule slots_per_epoch committee operator_ids slot =
    elim (active_fork_config schedule (slot / slots_per_epoch)) [
      | none ↦ panic
      | some config ↦ elim config.fork [
        | alan ↦ from_committee_alan committee subnet_count
        | boole ↦ from_operators foreign.sha256 operator_ids subnet_count
      ]
    ]

-- `map_err(|_| IncorrectTopic)`
abbrev pub lift_subnet : Result SubnetCalculationError ℕ → Result ValidationFailure ℕ
lift_subnet (ok subnet) = ok subnet
lift_subnet (err e) = err incorrect_topic
lift_subnet panic = panic

-- `router.active_fork`
abbrev pub active_fork {ℓ} : {E : Type ℓ} → ForkSchedule → ℕ → Result E Fork
active_fork schedule epoch = elim (active_fork_config schedule epoch) [
  | none ↦ panic
  | some config ↦ ok config.fork
]

-- `router.domain_type_for_epoch`, for the fork of the epoch.
abbrev pub domain_type : ForkSchedule → Fork → Option ℕ
domain_type schedule fork = elim (config_of fork schedule.configs) [
  | none ↦ none
  | some c ↦ some c.domain_type
]

unfoldable pub validate_topic_and_domain :
    Foreign
    → Validator
    → TopicContext
    → Option Bytes
    → List ℕ
    → SsvMessage
    → Result ValidationFailure (Unit {0})
validate_topic_and_domain foreign v skip_validation committee operator_ids m = ok tt
validate_topic_and_domain foreign v (validate_topic parsed) committee operator_ids m = do
  slot ← ok_or (extract_slot foreign m) unknown_message_slot
  let id : Hash256 = elim committee [
    | none ↦ committee_id foreign.sha256 (sort_unstable operator_ids)
    | some bytes ↦ from_be 0 bytes
  ]
  expected_subnet ←
      lift_subnet (subnet_at_slot foreign v.fork_schedule v.slots_per_epoch id operator_ids slot)
  guard (parsed.subnet_id == expected_subnet) incorrect_topic
  expected_fork ← active_fork v.fork_schedule (slot / v.slots_per_epoch)
  guard (rank parsed.fork == rank expected_fork) topic_fork_mismatch
  expected_domain ← ok_or (domain_type v.fork_schedule expected_fork) wrong_domain
  guard (from_be 0 (message_id_domain m.msg_id) == expected_domain) wrong_domain

-- `Committee(id)` of the executor.
abbrev pub committee_of : Option DutyExecutor → Option Bytes
committee_of (some (for_committee id)) = some id
committee_of _ = none

-- The committee, by the kind of the role.
unfoldable pub find_committee :
    NetworkState → Role → Option DutyExecutor → Result ValidationFailure CommitteeInfo
find_committee n role executor =
    if is_committee_role role
    then (ok_or (committee_of executor) non_existent_committee_id >>= λ id.
        ok_or (n.get_committee_info_by_committee_id id) non_existent_committee_id)
    else elim executor [
      | none ↦ err unknown_validator
      | some (for_committee id) ↦ err unknown_validator
      | some (for_validator key) ↦
          ok_or (n.get_committee_info_by_validator_pk key) unknown_validator
    ]

-- `get_operator_pub_keys`: the members that have a key, with it.
unfoldable pub get_operator_pub_keys : NetworkState → List ℕ → List (ℕ × Bytes)
get_operator_pub_keys n [] = []
get_operator_pub_keys n (id ∷ ids) =
    let rest = get_operator_pub_keys n ids in
    elim (n.get_operator_key id) [ none ↦ rest | some key ↦ (id, key) ∷ rest ]

-- The committee that a message belongs to, and its role, if the message is on the right topic.
unfoldable pub route :
    Foreign
    → Validator
    → SignedSsvMessage
    → TopicContext
    → Result ValidationFailure (Role × CommitteeInfo)
route foreign v m topic_context = do
  role ← validate_structure_and_role m
  let executor = message_id_duty_executor foreign.deserialize_key m.ssv_message.msg_id
  info ← find_committee v.network_state role executor
  validate_topic_and_domain foreign v topic_context (committee_of executor) info.committee_members
      m.ssv_message
  ok (role, info)

-- `get_duty_state`
unfoldable pub get_duty_state : Foreign → Validator → Bytes → Role → DutyState
get_duty_state foreign v id role = elim (v.duty_state_map id) [
  | none ↦ new_duty_state (stored_slot_count role v.slots_per_epoch foreign.min_seed_lookahead)
  | some d ↦ d
]

-- The write through the entry of the map.
unfoldable pub put_duty_state : Validator → Bytes → DutyState → Validator
put_duty_state v id d = record v {
  duty_state_map = λ other. if bytes_equal id other then some d else v.duty_state_map other;
}

-- The context that `validate_decoded_message` makes, at the time of reception.
unfoldable pub context_of :
    Validator → SignedSsvMessage → Role → CommitteeInfo → ℕ → ValidationContext
context_of v m role info received_at = record {
  signed_ssv_message = m;
  role = role;
  committee_info = info;
  received_at = received_at;
  slots_per_epoch = v.slots_per_epoch;
  epochs_per_sync_committee_period = v.epochs_per_sync_committee_period;
  sync_committee_size = v.sync_committee_size;
  operator_pub_keys = get_operator_pub_keys v.network_state info.committee_members;
  fork_schedule = v.fork_schedule;
}

unfoldable pub validate_decoded_message :
    Foreign
    → DutiesProvider
    → Validator
    → SignedSsvMessage
    → TopicContext
    → ℕ
    → Result ValidationFailure ValidatedSsvMessage × Validator
validate_decoded_message foreign duties v m topic_context received_at =
    elim (route foreign v m topic_context) [
      | panic ↦ (panic, v)
      | err e ↦ (err e, v)
      | ok (role, info) ↦
          let id = m.ssv_message.msg_id in
          let (result, d) =
            validate_ssv_message_in foreign duties (context_of v m role info received_at)
              (get_duty_state foreign v id role) in
          (result, put_duty_state v id d)
    ]

-- `ValidationResult`; a panic is one of `validate`.
pub data ValidationResult : Type 0 where
  success : SignedSsvMessage → ValidatedSsvMessage → ValidationResult
  pre_decode_failure : ValidationFailure → ValidationResult
  post_decode_failure : ValidationFailure → SignedSsvMessage → ValidationResult
  panicked : ValidationResult

-- `Validator::validate`
unfoldable pub validate_bytes :
    Foreign → DutiesProvider → Validator → Bytes → TopicContext → ℕ → ValidationResult × Validator
validate_bytes foreign duties v message_data topic_context received_at =
    elim (foreign.decode_signed message_data) [
      | none ↦ (pre_decode_failure undecodable_message_data, v)
      | some m ↦
          let (result, left) =
            validate_decoded_message foreign duties v m topic_context received_at in
          elim result [
            | panic ↦ (panicked, left)
            | err e ↦ (post_decode_failure e m, left)
            | ok validated ↦ (success m validated, left)
          ]
    ]

-- `From<&ValidationResult> for MessageAcceptance`
unfoldable pub acceptance : ValidationResult → Option MessageAcceptance
acceptance (success m validated) = some accept
acceptance (pre_decode_failure e) = some (acceptance_of_failure e)
acceptance (post_decode_failure e m) = some (acceptance_of_failure e)
acceptance panicked = none

-- What the cleaner does at the slot `now`: `retain` of the states that are not outdated.
unfoldable pub clean : Validator → ℕ → Validator
clean v now = record v {
  duty_state_map = λ id. elim (v.duty_state_map id) [
    | none ↦ none
    | some d ↦ if outdated d now then none else some d
  ];
}
