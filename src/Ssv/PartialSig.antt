-- ===== src/Ssv/PartialSig.antt =====
-- Partial signature messages: anchor/common/ssv_types/src/partial_sig.rs.
pub mod Kinds
use anchor.Base.{ℕ, List, [], ◌∷◌, Bool, ◌==◌, if◌then◌else◌, length, every, Option, none, some}
use anchor.Base.Result.{Result, ok, err}
use anchor.Ssv.Message.{Bytes}
use anchor.Ssv.Consensus.{Hash256}
use anchor.Ssv.Codec.{
  DecodeError, invalid_byte_length, no_matching_variant, to_le, from_le, u64_size,
}

pub data PartialSignatureKind : Type 0 where
  post_consensus randao_partial_sig selection_proof_partial_sig : PartialSignatureKind
  contribution_proofs validator_registration_sig voluntary_exit_sig : PartialSignatureKind
  aggregator_committee_partial_sig ptc_attester_sig : PartialSignatureKind
  proposer_preferences_sig request_auth : PartialSignatureKind

-- `kind as u64`
abbrev pub kind_value : PartialSignatureKind → ℕ
kind_value post_consensus = 0
kind_value randao_partial_sig = 1
kind_value selection_proof_partial_sig = 2
kind_value contribution_proofs = 3
kind_value validator_registration_sig = 4
kind_value voluntary_exit_sig = 5
kind_value aggregator_committee_partial_sig = 6
kind_value ptc_attester_sig = 7
kind_value proposer_preferences_sig = 8
kind_value request_auth = 9

-- `TryFrom<u64>`
unfoldable pub kind_of : ℕ → Option PartialSignatureKind
kind_of value =
    if value == 0
    then some post_consensus
    else if value == 1
    then some randao_partial_sig
    else if value == 2
    then some selection_proof_partial_sig
    else if value == 3
    then some contribution_proofs
    else if value == 4
    then some validator_registration_sig
    else if value == 5
    then some voluntary_exit_sig
    else if value == 6
    then some aggregator_committee_partial_sig
    else if value == 7
    then some ptc_attester_sig
    else if value == 8
    then some proposer_preferences_sig
    else if value == 9
    then some request_auth
    else none

-- `PartialSignatureKind::ssz_append`, what it appends.
unfoldable pub encode_kind : PartialSignatureKind → Bytes
encode_kind kind = to_le u64_size (kind_value kind)

-- `PartialSignatureKind::from_ssz_bytes`
unfoldable pub decode_kind : Bytes → Result DecodeError PartialSignatureKind
decode_kind bytes =
    if length bytes == u64_size
    then elim (kind_of (from_le bytes)) [ none ↦ err no_matching_variant | some kind ↦ ok kind ]
    else err (invalid_byte_length (length bytes) u64_size)

pub record PartialSignatureMessage : Type 0 where
  pub partial_signature : Bytes
  pub signing_root : Hash256
  pub signer : ℕ
  pub validator_index : ℕ

pub record PartialSignatureMessages : Type 0 where
  pub kind : PartialSignatureKind
  pub slot : ℕ
  pub messages : List PartialSignatureMessage

pub data PartialSignatureMessagesError : Type 0 where
  empty inconsistent_signers zero_signer : PartialSignatureMessagesError

-- `PartialSignatureMessages::validate`, the signer that all messages share.
unfoldable pub common_signer : List PartialSignatureMessage → Result PartialSignatureMessagesError ℕ
common_signer [] = err empty
common_signer (first ∷ rest) =
    if first.signer == 0
    then err zero_signer
    else if every (λ m. m.signer == first.signer) rest
    then ok first.signer
    else err inconsistent_signers
