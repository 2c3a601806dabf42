-- ===== src/Ssv/Codec.antt =====
-- The fixed-length SSZ codecs that anchor/common/ssv_types/src writes out: a number of 8 bytes, the
-- least significant first, for each variant (consensus.rs and partial_sig.rs).
pub mod Roundtrip
use anchor.Base.{ℕ, zero, suc, ◌+◌, ◌*◌, ◌/◌, ◌%◌, List, [], ◌∷◌, ◌==◌, if◌then◌else◌, length}
use anchor.Base.Result.{Result, ok, err}
use anchor.Ssv.Message.{Bytes}
use anchor.Ssv.Consensus.{QbftMessageType, proposal, prepare, commit, round_change}

-- `ssz::DecodeError`, the variants that the repository builds.
pub data DecodeError : Type 0 where
  invalid_byte_length : ℕ → ℕ → DecodeError
  no_matching_variant : DecodeError

-- The `n` low bytes of a number: `to_le_bytes`.
abbrev pub to_le : ℕ → ℕ → Bytes
to_le zero value = []
to_le (suc n) value = value % 256 ∷ to_le n (value / 256)

-- `from_le_bytes`
abbrev pub from_le : Bytes → ℕ
from_le [] = 0
from_le (b ∷ bs) = b + 256 * from_le bs

-- `U64_SIZE`
abbrev pub u64_size : ℕ
u64_size = 8

abbrev pub qbft_message_type_value : QbftMessageType → ℕ
qbft_message_type_value proposal = 0
qbft_message_type_value prepare = 1
qbft_message_type_value commit = 2
qbft_message_type_value round_change = 3

-- `QbftMessageType::ssz_append`, what it appends.
unfoldable pub encode_qbft_message_type : QbftMessageType → Bytes
encode_qbft_message_type t = to_le u64_size (qbft_message_type_value t)

-- The `match` of `from_ssz_bytes`.
abbrev pub qbft_message_type_of : ℕ → Result DecodeError QbftMessageType
qbft_message_type_of value =
    if value == 0
    then ok proposal
    else if value == 1
    then ok prepare
    else if value == 2
    then ok commit
    else if value == 3
    then ok round_change
    else err no_matching_variant

-- `QbftMessageType::from_ssz_bytes`
unfoldable pub decode_qbft_message_type : Bytes → Result DecodeError QbftMessageType
decode_qbft_message_type bytes =
    if length bytes == u64_size
    then qbft_message_type_of (from_le bytes)
    else err (invalid_byte_length (length bytes) u64_size)
