-- ===== src/Ssv/MessageId.antt =====
-- Roles and message identifiers: anchor/common/ssv_types/src/msgid.rs.
pub mod Slots
use anchor.Base.{
  ℕ, zero, suc, List, [], ◌∷◌, ◌++◌, Bool, true, false, ◌&&◌, ◌||◌, not, ◌==◌, if◌then◌else◌,
  length, Option, none, some, is_some,
}
use anchor.Base.Result.{Result, ok, err}
use anchor.Ssv.Message.{Bytes}
use anchor.Ssv.Codec.{DecodeError, invalid_byte_length}

pub data Role : Type 0 where
  committee aggregator proposer sync_committee validator_registration : Role
  voluntary_exit aggregator_committee ptc_attester proposer_preferences : Role

-- `From<Role> for [u8; 4]`
unfoldable pub role_bytes : Role → Bytes
role_bytes committee = 0 ∷ 0 ∷ 0 ∷ 0 ∷ []
role_bytes aggregator = 1 ∷ 0 ∷ 0 ∷ 0 ∷ []
role_bytes proposer = 2 ∷ 0 ∷ 0 ∷ 0 ∷ []
role_bytes sync_committee = 3 ∷ 0 ∷ 0 ∷ 0 ∷ []
role_bytes validator_registration = 4 ∷ 0 ∷ 0 ∷ 0 ∷ []
role_bytes voluntary_exit = 5 ∷ 0 ∷ 0 ∷ 0 ∷ []
role_bytes aggregator_committee = 6 ∷ 0 ∷ 0 ∷ 0 ∷ []
role_bytes ptc_attester = 7 ∷ 0 ∷ 0 ∷ 0 ∷ []
role_bytes proposer_preferences = 8 ∷ 0 ∷ 0 ∷ 0 ∷ []

-- The first byte, in the patterns of `TryFrom<&[u8]> for Role`.
abbrev pub role_of_byte : ℕ → Option Role
role_of_byte b =
    if b == 0
    then some committee
    else if b == 1
    then some aggregator
    else if b == 2
    then some proposer
    else if b == 3
    then some sync_committee
    else if b == 4
    then some validator_registration
    else if b == 5
    then some voluntary_exit
    else if b == 6
    then some aggregator_committee
    else if b == 7
    then some ptc_attester
    else if b == 8
    then some proposer_preferences
    else none

-- `TryFrom<&[u8]> for Role`; its one error is `NoMatchingVariant`.
unfoldable pub role_of_bytes : Bytes → Option Role
role_of_bytes (a ∷ b ∷ c ∷ d ∷ []) = if b == 0 && (c == 0 && d == 0) then role_of_byte a else none
role_of_bytes _ = none

abbrev pub is_committee_role : Role → Bool
is_committee_role committee = true
is_committee_role aggregator_committee = true
is_committee_role _ = false

unfoldable pub max_round : Role → Option ℕ
max_round committee = some 12
max_round aggregator = some 12
max_round aggregator_committee = some 12
max_round proposer = some 2
max_round sync_committee = some 6
max_round validator_registration = none
max_round voluntary_exit = none
max_round ptc_attester = none
max_round proposer_preferences = none

unfoldable pub is_qbft_role : Role → Bool
unfolding max_round
is_qbft_role role = is_some (max_round role)

abbrev pub is_proposer_preferences : Role → Bool
is_proposer_preferences proposer_preferences = true
is_proposer_preferences _ = false

unfoldable pub monotonic_slot_role : Role → Bool
monotonic_slot_role role = not (is_committee_role role) && not (is_proposer_preferences role)

-- A committee by its 32 bytes, a validator by the 48 bytes of its public key.
pub data DutyExecutor : Type 0 where
  for_committee for_validator : Bytes → DutyExecutor

-- `MESSAGE_ID_LEN`
abbrev pub message_id_len : ℕ
message_id_len = 56

abbrev pub take : ℕ → Bytes → Bytes
take zero bs = []
take (suc n) [] = []
take (suc n) (b ∷ bs) = b ∷ take n bs

abbrev pub drop : ℕ → Bytes → Bytes
drop zero bs = bs
drop (suc n) [] = []
drop (suc n) (b ∷ bs) = drop n bs

abbrev pub zeros : ℕ → Bytes
zeros zero = []
zeros (suc n) = 0 ∷ zeros n

-- `id[from..to].copy_from_slice(src)`, for a source of `to - from` bytes.
abbrev pub copy_from_slice : ℕ → ℕ → Bytes → Bytes → Bytes
copy_from_slice from to src id = take from id ++ src ++ drop to id

-- `MessageId::new`; the arguments are arrays of 4, 32 and 48 bytes.
unfoldable pub new_message_id : Bytes → Role → DutyExecutor → Bytes
new_message_id domain role duty_executor =
    let with_domain = copy_from_slice 0 4 domain (zeros message_id_len) in
    let with_role = copy_from_slice 4 8 (role_bytes role) with_domain in
    elim duty_executor [
      | for_committee committee_id ↦ copy_from_slice 24 message_id_len committee_id with_role
      | for_validator public_key ↦ copy_from_slice 8 message_id_len public_key with_role
    ]

-- `MessageId::domain`
unfoldable pub message_id_domain : Bytes → Bytes
message_id_domain id = take 4 id

-- `MessageId::role`
unfoldable pub message_id_role : Bytes → Option Role
message_id_role id = role_of_bytes (take 4 (drop 4 id))

-- `MessageId::duty_executor`; `deserialize` is that of `PublicKeyBytes`, as bytes.
unfoldable pub message_id_duty_executor : (Bytes → Option Bytes) → Bytes → Option DutyExecutor
message_id_duty_executor deserialize id = elim (message_id_role id) [
  | none ↦ none
  | some role ↦
      if is_committee_role role
      then some (for_committee (drop 24 id))
      else elim (deserialize (drop 8 id)) [ none ↦ none | some key ↦ some (for_validator key) ]
]

-- `from_ssz_bytes`, and what `ssz_append` appends.
unfoldable pub decode_message_id : Bytes → Result DecodeError Bytes
decode_message_id bytes =
    if length bytes == message_id_len
    then ok bytes
    else err (invalid_byte_length (length bytes) message_id_len)

abbrev pub encode_message_id : Bytes → Bytes
encode_message_id id = id
