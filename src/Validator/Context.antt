-- ===== src/Validator/Context.antt =====
-- What a validation runs in: `ValidationContext` of anchor/message_validator/src/lib.rs, the
-- duties provider, the clock and the cryptography that it is given, and the verification of
-- signatures. Slots and epochs are numbers; slots_per_epoch is not 0. Times are milliseconds since
-- the Unix epoch.
use anchor.Base.{ℕ, ◌/◌, Bool, List, [], ◌∷◌, Option, none, some, ◌==◌, leb, if◌then◌else◌, length}
use anchor.Base.Result.{Result, ok, err, panic, ◌>>=◌, ◌>>◌, guard, ok_or}
use anchor.Base.Maps.{lookup}
use anchor.Fork.{ForkSchedule}
use anchor.Ssv.Message.{Bytes, SignedSsvMessage}
use anchor.Ssv.Consensus.{Hash256, QbftMessage}
use anchor.Ssv.MessageId.{Role}
use anchor.Ssv.PartialSig.{PartialSignatureMessages}
use anchor.Validator.Failure.{
  ValidationFailure, slot_start_time_not_found, sync_committee_period_calculation_failure,
  no_share_metadata, operator_not_found, signature_verification_failed, signatures_missing,
}

pub record CommitteeInfo : Type 0 where
  pub committee_members : List ℕ
  pub validator_indices : List ℕ

pub data DutyAssignment : Type 0 where
  assigned not_assigned unknown : DutyAssignment

-- `DutiesProvider` of anchor/duties_tracker/src/lib.rs.
pub record DutiesProvider : Type 0 where
  pub is_validator_in_sync_committee : ℕ → ℕ → Bool
  pub is_epoch_known_for_proposers : ℕ → Bool
  pub is_validator_proposer_at_slot : ℕ → ℕ → Bool
  pub ptc_assignment_at_slot : ℕ → ℕ → DutyAssignment
  pub proposer_assignment_at_slot : ℕ → Bytes → DutyAssignment
  pub local_proposer_assignment_at_slot : ℕ → Bytes → Bool
  pub get_voluntary_exit_duty_count : ℕ → Bytes → ℕ

-- The third-party code that validation calls.
pub record Foreign : Type 0 where
  pub sha256 : Bytes → Hash256
  -- The SSZ decoders that derive macros generate.
  pub decode_qbft : Bytes → Option QbftMessage
  pub decode_signed : Bytes → Option SignedSsvMessage
  pub decode_partial : Bytes → Option PartialSignatureMessages
  -- `PublicKeyBytes::deserialize`
  pub deserialize_key : Bytes → Option Bytes
  -- The RSA verifier of openssl, by key, message and signature; `false` is also an error of it.
  pub verify : Bytes → SignedSsvMessage → Bytes → Bool
  -- `SlotClock`: the start of a slot after the Unix epoch, and the current slot.
  pub start_of : ℕ → Option ℕ
  pub now : Option ℕ
  -- The sum of a slot and a number, and the last time that `SystemTime` holds.
  pub slot_add : ℕ → ℕ → ℕ
  pub system_time_max : ℕ
  -- `ChainSpec`: whether the fork at an epoch is Gloas or later, when it starts, the lookahead.
  pub gloas_enabled : ℕ → Bool
  pub gloas_fork_epoch : Option ℕ
  pub min_seed_lookahead : ℕ

pub record ValidationContext : Type 0 where
  pub signed_ssv_message : SignedSsvMessage
  pub role : Role
  pub committee_info : CommitteeInfo
  pub received_at : ℕ
  pub slots_per_epoch : ℕ
  pub epochs_per_sync_committee_period : ℕ
  pub sync_committee_size : ℕ
  pub operator_pub_keys : List (ℕ × Bytes)
  pub fork_schedule : ForkSchedule

-- `slot_start_time`, with the failure that its callers make of its error; the sum with the Unix
-- epoch panics on overflow.
unfoldable pub slot_start_time : Foreign → ℕ → Result ValidationFailure ℕ
slot_start_time foreign slot = elim (foreign.start_of slot) [
  | none ↦ err (slot_start_time_not_found slot)
  | some dur ↦ if leb dur foreign.system_time_max then ok dur else panic
]

unfoldable pub sync_committee_period : ℕ → ℕ → Result ValidationFailure ℕ
sync_committee_period epoch epochs_per_sync_committee_period =
    if epochs_per_sync_committee_period == 0
    then err sync_committee_period_calculation_failure
    else ok (epoch / epochs_per_sync_committee_period)

-- `validator_indices.first()`
abbrev pub first {ℓ} : {A : Type ℓ} → List A → Option A
first [] = none
first (x ∷ xs) = some x

unfoldable pub single_validator_index : ValidationContext → Result ValidationFailure ℕ
single_validator_index c = ok_or (first c.committee_info.validator_indices) no_share_metadata

-- The failures to set up the verifier are failures to verify.
unfoldable pub verify_message_signature :
    Foreign → SignedSsvMessage → Bytes → Bytes → Result ValidationFailure (Unit {0})
verify_message_signature foreign m key signature =
    guard (foreign.verify key m signature) signature_verification_failed

unfoldable pub verify_single_signer :
    Foreign → ValidationContext → ℕ → Result ValidationFailure (Unit {0})
verify_single_signer foreign c signer = do
  key ← ok_or (lookup signer c.operator_pub_keys) (operator_not_found signer)
  signature ← ok_or (first c.signed_ssv_message.signatures) signatures_missing
  verify_message_signature foreign c.signed_ssv_message key signature

-- The keys of the signers, in order, or the first signer that has none.
unfoldable pub signer_keys : List (ℕ × Bytes) → List ℕ → Result ValidationFailure (List Bytes)
signer_keys keys [] = ok []
signer_keys keys (id ∷ ids) = do
  key ← ok_or (lookup id keys) (operator_not_found id)
  rest ← signer_keys keys ids
  ok (key ∷ rest)

-- The loop over signatures and keys.
unfoldable pub verify_each :
    Foreign → SignedSsvMessage → List Bytes → List Bytes → Result ValidationFailure (Unit {0})
verify_each foreign m (signature ∷ signatures) (key ∷ keys) =
    verify_message_signature foreign m key signature >> verify_each foreign m signatures keys
verify_each foreign m _ _ = ok tt

unfoldable pub verify_message_signatures :
    Foreign → SignedSsvMessage → List (ℕ × Bytes) → Result ValidationFailure (Unit {0})
verify_message_signatures foreign m operator_pub_keys = do
  keys ← signer_keys operator_pub_keys m.operator_ids
  guard (length m.signatures == length keys) signature_verification_failed
  verify_each foreign m m.signatures keys
