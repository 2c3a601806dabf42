-- ===== src/Validator/Entry.antt =====
-- The entry of the validator: `Validator` of anchor/message_validator/src/lib.rs, its map from
-- message identifiers to duty states as a function, and the cleaning of it.
use anchor.Base.{ℕ, not, Option, none, some, if◌then◌else◌, every}
use anchor.Base.Result.{Result, ok, err, panic, ◌>>=◌, ◌>>◌, ok_or}
use anchor.Base.Sets.{contains}
use anchor.Ssv.Message.{
  Bytes, SsvMessage, SignedSsvMessage, validate, ssv_consensus_msg_type,
  ssv_partial_signature_msg_type,
}
use anchor.Ssv.Consensus.{QbftMessage}
use anchor.Ssv.PartialSig.{PartialSignatureMessages}
use anchor.Ssv.MessageId.{Role, message_id_role}
use anchor.Validator.Failure.{
  ValidationFailure, map_error, invalid_role, unknown_message_slot, signer_not_in_committee,
  undecodable_message_data,
}
use anchor.Validator.DutyState.{DutyState}
use anchor.Validator.Context.{Foreign, DutiesProvider, ValidationContext}
use anchor.Validator.Consensus.{Outcome, validate_consensus_message}
use anchor.Validator.Partial.{validate_partial_signature_message}

pub data ValidatedSsvMessage : Type 0 where
  qbft_message : QbftMessage → ValidatedSsvMessage
  partial_signature_messages : PartialSignatureMessages → ValidatedSsvMessage

-- `SSVMessage::extract_slot`, of common/ssv_types/src/message.rs.
unfoldable pub extract_slot : Foreign → SsvMessage → Option ℕ
extract_slot foreign m = elim m.msg_type [
  | ssv_consensus_msg_type ↦ elim (foreign.decode_qbft m.msg_data) [
    | none ↦ none
    | some q ↦ some q.height
  ]
  | ssv_partial_signature_msg_type ↦ elim (foreign.decode_partial m.msg_data) [
    | none ↦ none
    | some p ↦ some p.slot
  ]
]

unfoldable pub validate_structure_and_role : SignedSsvMessage → Result ValidationFailure Role
validate_structure_and_role m = do
  map_error (validate m)
  ok_or (message_id_role m.ssv_message.msg_id) invalid_role

unfoldable pub validate_outbound_message : Foreign → SignedSsvMessage → Result ValidationFailure ℕ
validate_outbound_message foreign m = do
  _ ← validate_structure_and_role m
  ok_or (extract_slot foreign m.ssv_message) unknown_message_slot

unfoldable pub validate_outbound : Foreign → Bytes → Result ValidationFailure ℕ
validate_outbound foreign message_data = do
  m ← ok_or (foreign.decode_signed message_data) undecodable_message_data
  validate_outbound_message foreign m

-- The continuation that keeps the kind of what was validated.
abbrev pub as_validated :
    {A : Type 0} → (A → ValidatedSsvMessage) → Outcome A → Outcome ValidatedSsvMessage
as_validated wrap (panic, d) = (panic, d)
as_validated wrap (err e, d) = (err e, d)
as_validated wrap (ok a, d) = (ok (wrap a), d)

unfoldable pub validate_ssv_message_in :
    Foreign → DutiesProvider → ValidationContext → DutyState → Outcome ValidatedSsvMessage
validate_ssv_message_in foreign duties c d =
    let m = c.signed_ssv_message in
    if not (every (contains c.committee_info.committee_members) m.operator_ids)
    then (err signer_not_in_committee, d)
    else elim m.ssv_message.msg_type [
      | ssv_consensus_msg_type ↦
          as_validated qbft_message (validate_consensus_message foreign duties c d)
      | ssv_partial_signature_msg_type ↦
          as_validated partial_signature_messages
            (validate_partial_signature_message foreign duties c d)
    ]
