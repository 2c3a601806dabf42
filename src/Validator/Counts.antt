-- ===== src/Validator/Counts.antt =====
-- Counts of messages: anchor/message_validator/src/message_counts.rs. A count is a u8, and a sum
-- wraps, as in a release build.
use anchor.Base.{ℕ, ◌+◌, ◌%◌, Bool, ◌&&◌, ◌==◌, leb, if◌then◌else◌, length}
use anchor.Base.Result.{Result, ok, err}
use anchor.Ssv.Message.{SignedSsvMessage}
use anchor.Ssv.Consensus.{QbftMessageType, proposal, prepare, commit, round_change}
use anchor.Ssv.PartialSig.{
  PartialSignatureKind, post_consensus, randao_partial_sig, selection_proof_partial_sig,
  contribution_proofs, validator_registration_sig, voluntary_exit_sig,
  aggregator_committee_partial_sig, ptc_attester_sig, proposer_preferences_sig, request_auth,
}
use anchor.Validator.Failure.{
  ValidationFailure, duplicated_message, invalid_partial_signature_type_count,
}

-- `MAX_MESSAGES_PER_ROUND`
abbrev pub max_messages_per_round : ℕ
max_messages_per_round = 1

pub record MessageCounts : Type 0 where
  pub pre_consensus : ℕ
  pub proposals : ℕ
  pub prepares : ℕ
  pub commits : ℕ
  pub round_changes : ℕ
  pub post_consensuses : ℕ

-- `Default`
abbrev pub no_messages : MessageCounts
no_messages = record {
  pre_consensus = 0;
  proposals = 0;
  prepares = 0;
  commits = 0;
  round_changes = 0;
  post_consensuses = 0;
}

-- A guarded arm: `DuplicatedMessage` from the limit on.
abbrev pub below_limit : Bool → Result ValidationFailure (Unit {0})
below_limit exceeded = if exceeded then err duplicated_message else ok tt

unfoldable pub validate_consensus_message_limits :
    MessageCounts → SignedSsvMessage → QbftMessageType → Result ValidationFailure (Unit {0})
validate_consensus_message_limits c m proposal =
    below_limit (leb max_messages_per_round c.proposals)
validate_consensus_message_limits c m prepare = below_limit (leb max_messages_per_round c.prepares)
validate_consensus_message_limits c m commit =
    below_limit (length m.operator_ids == 1 && leb max_messages_per_round c.commits)
validate_consensus_message_limits c m round_change =
    below_limit (leb max_messages_per_round c.round_changes)

-- `+= 1` on a u8
abbrev pub add_one : ℕ → ℕ
add_one n = (n + 1) % 256

unfoldable pub record_consensus_message : MessageCounts → QbftMessageType → ℕ → MessageCounts
record_consensus_message c proposal signer_count = record c { proposals = add_one c.proposals }
record_consensus_message c prepare signer_count = record c { prepares = add_one c.prepares }
record_consensus_message c commit signer_count =
    if signer_count == 1 then record c { commits = add_one c.commits } else c
record_consensus_message c round_change signer_count = record c {
  round_changes = add_one c.round_changes;
}

-- The counter of a kind: the shared one before consensus, the one after it, or none.
pub data Counter : Type 0 where
  before_consensus after_consensus uncounted : Counter

abbrev pub counter_of : PartialSignatureKind → Counter
counter_of randao_partial_sig = before_consensus
counter_of selection_proof_partial_sig = before_consensus
counter_of contribution_proofs = before_consensus
counter_of validator_registration_sig = before_consensus
counter_of voluntary_exit_sig = before_consensus
counter_of aggregator_committee_partial_sig = before_consensus
counter_of ptc_attester_sig = before_consensus
counter_of post_consensus = after_consensus
counter_of proposer_preferences_sig = uncounted
counter_of request_auth = uncounted

-- `validate_partial_signature_message` of `MessageCounts`
unfoldable pub validate_partial_signature_limits :
    MessageCounts → PartialSignatureKind → Result ValidationFailure (Unit {0})
validate_partial_signature_limits c kind = elim (counter_of kind) [
  | before_consensus ↦
      if leb max_messages_per_round c.pre_consensus
      then err invalid_partial_signature_type_count
      else ok tt
  | after_consensus ↦
      if leb max_messages_per_round c.post_consensuses
      then err invalid_partial_signature_type_count
      else ok tt
  | uncounted ↦ ok tt
]

unfoldable pub record_partial_signature : MessageCounts → PartialSignatureKind → MessageCounts
record_partial_signature c kind = elim (counter_of kind) [
  | before_consensus ↦ record c { pre_consensus = add_one c.pre_consensus }
  | after_consensus ↦ record c { post_consensuses = add_one c.post_consensuses }
  | uncounted ↦ c
]
