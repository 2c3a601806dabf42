-- ===== src/Qbft/Types.antt =====
-- Messages, states and outcomes of an instance: anchor/common/qbft/src/qbft_types.rs.
use anchor.Base.{ℕ, Bool, true, false}
use anchor.Ssv.Message.{SignedSsvMessage}
use anchor.Ssv.Consensus.{Hash256, QbftMessage, UnsignedSsvMessage}

pub record WrappedQbftMessage : Type 0 where
  pub signed_message : SignedSsvMessage
  pub qbft_message : QbftMessage

pub record UnsignedWrappedQbftMessage : Type 0 where
  pub unsigned_message : UnsignedSsvMessage
  pub qbft_message : QbftMessage

-- The argument of `prepare` and `commit` is the proposal root.
pub data InstanceState : Type 0 where
  awaiting_proposal : InstanceState
  prepare commit : Hash256 → InstanceState
  sent_round_change complete round_change_consensus : InstanceState

-- `u8::from`
unfoldable pub to_u8 : InstanceState → ℕ
to_u8 awaiting_proposal = 0
to_u8 (prepare _) = 1
to_u8 (commit _) = 2
to_u8 sent_round_change = 4
to_u8 complete = 5
to_u8 round_change_consensus = 6

abbrev pub is_awaiting_proposal : InstanceState → Bool
is_awaiting_proposal awaiting_proposal = true
is_awaiting_proposal _ = false

abbrev pub is_sent_round_change : InstanceState → Bool
is_sent_round_change sent_round_change = true
is_sent_round_change _ = false

pub data Completed {ℓ} (A : Type ℓ) : Type ℓ where
  timed_out : Completed A
  success : A → Completed A
