-- ===== src/Ssv/Consensus.antt =====
-- QBFT messages and the data under agreement: anchor/common/ssv_types/src/consensus.rs.
use anchor.Base.{ℕ, Bool, true, false, List, Option}
use anchor.Ssv.Message.{Bytes, SsvMessage, SignedSsvMessage}

pub data QbftMessageType : Type 0 where
  proposal prepare commit round_change : QbftMessageType

abbrev pub is_commit : QbftMessageType → Bool
is_commit commit = true
is_commit _ = false

abbrev pub is_prepare : QbftMessageType → Bool
is_prepare prepare = true
is_prepare _ = false

abbrev pub is_proposal : QbftMessageType → Bool
is_proposal proposal = true
is_proposal _ = false

abbrev pub is_round_change : QbftMessageType → Bool
is_round_change round_change = true
is_round_change _ = false

-- A `Hash256` is the number that its bytes spell; `Hash256::default()` is 0.
abbrev pub Hash256 : Type 0
Hash256 = ℕ

pub record QbftMessage : Type 0 where
  pub qbft_message_type : QbftMessageType
  pub height : ℕ  -- u64
  pub round : ℕ  -- u64
  pub identifier : Bytes
  pub root : Hash256
  pub data_round : ℕ  -- u64
  pub round_change_justification : List Bytes
  pub prepare_justification : List Bytes

pub record UnsignedSsvMessage : Type 0 where
  pub ssv_message : SsvMessage
  pub full_data : Bytes

-- `QbftData`, `QbftDataValidator` and the SSZ codecs, which derive macros generate.
pub record QbftData (D : Type 0) : Type 0 where
  pub hash : D → Hash256
  pub as_ssz_bytes : D → Bytes
  pub from_ssz_bytes : Bytes → Option D
  -- `validate(value, start_value)`
  pub validate : D → D → Bool
  pub encode_signed : SignedSsvMessage → Bytes
  pub decode_signed : Bytes → Option SignedSsvMessage
  pub encode_qbft : QbftMessage → Bytes
  pub decode_qbft : Bytes → Option QbftMessage
