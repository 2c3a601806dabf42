-- ===== src/Qbft/Instance/Outgoing.antt =====
-- The messages of an instance before they are sent: `get_message_data`, `new_unsigned_message` and
-- the instance's own justifications, of anchor/common/qbft/src/lib.rs.
use anchor.Base.{ℕ, List, [], ◌∷◌, Option, none, some, leb, ◌==◌, if◌then◌else◌, keep}
use anchor.Base.Maps.{lookup}
use anchor.Base.Result.{Result, ok, err, panic, ◌>>=◌}
use anchor.Ssv.Round.{Round, first_round}
use anchor.Ssv.Message.{
  Bytes, SsvMessageError, SignedSsvMessage, ssv_consensus_msg_type, try_to_variable_list,
  new_ssv_message, set_full_data, without_full_data, round_change_justification_length,
  prepare_justification_length,
}
use anchor.Ssv.Committee.{max_signatures}
use anchor.Ssv.Consensus.{Hash256, QbftData, QbftMessage, QbftMessageType, proposal, round_change}
use anchor.Qbft.Error.{
  QbftError, invalid_full_data, round_change_justification_too_big,
  round_change_justification_list_too_big, prepare_justification_too_big,
  prepare_justification_list_too_big,
}
use anchor.Qbft.Types.{UnsignedWrappedQbftMessage, is_awaiting_proposal}
use anchor.Qbft.Container.{get_messages_for_round}
use anchor.Qbft.Instance.{Qbft, has_quorum, signed_messages}

pub record MessageData : Type 0 where
  pub data_round : ℕ
  pub round : ℕ
  pub root : Hash256
  pub full_data : Bytes

-- `clear` of every justification's full data.
unfoldable pub clear_full_data : List SignedSsvMessage → Result QbftError (List SignedSsvMessage)
unfolding set_full_data
clear_full_data [] = ok []
clear_full_data (m ∷ ms) = elim (set_full_data m []) [
  | Result.ok m' ↦ (clear_full_data ms >>= λ rest. ok (m' ∷ rest))
  | Result.err _ ↦ err invalid_full_data
  | Result.panic ↦ panic
]

-- `new(…).expect(…)`
abbrev pub or_panic {ℓ} : {A : Type ℓ} → Result SsvMessageError A → Result QbftError A
or_panic (ok a) = ok a
or_panic (err _) = panic
or_panic Result.panic = panic

module _ {D : Type 0} (env : QbftData D) where
  -- `data.get(&hash).map(as_ssz_bytes).unwrap_or_else(vec![])`
  unfoldable pub bytes_of : Qbft D → Hash256 → Bytes
  bytes_of q hash = elim (lookup hash q.seen_data) [ none ↦ [] | some d ↦ env.as_ssz_bytes d ]

  -- The data of a round change: the prepared value and round, if there are both.
  unfoldable pub round_change_data : Qbft D → Option Hash256 → Option Round → MessageData
  unfolding bytes_of
  round_change_data q (some value) (some round) = record {
    data_round = round;
    round = q.current_round;
    root = value;
    full_data = bytes_of q value;
  }
  round_change_data q _ _ = record {
    data_round = 0;
    round = q.current_round;
    root = 0;
    full_data = [];
  }

  unfoldable pub get_message_data : Qbft D → QbftMessageType → Hash256 → MessageData
  unfolding round_change_data bytes_of
  get_message_data q round_change data_hash =
      round_change_data q q.last_prepared_value q.last_prepared_round
  get_message_data q proposal data_hash = record {
    data_round = 0;
    round = q.current_round;
    root = data_hash;
    full_data = bytes_of q data_hash;
  }
  get_message_data q _ data_hash = record {
    data_round = 0;
    round = q.current_round;
    root = data_hash;
    full_data = [];
  }

  -- The loop of `try_encode_signed_ssv_messages`.
  unfoldable pub encode_all :
      ℕ → (ℕ → ℕ → QbftError) → List SignedSsvMessage → Result QbftError (List Bytes)
  unfolding try_to_variable_list
  encode_all max inner_error_fn [] = ok []
  encode_all max inner_error_fn (m ∷ ms) =
      try_to_variable_list max (env.encode_signed (without_full_data m)) inner_error_fn >>= λ bytes.
      encode_all max inner_error_fn ms >>= λ rest. ok (bytes ∷ rest)

  unfoldable pub try_encode_signed_ssv_messages :
      ℕ
      → List SignedSsvMessage
      → (ℕ → ℕ → QbftError)
      → (ℕ → ℕ → QbftError)
      → Result QbftError (List Bytes)
  unfolding encode_all
  try_encode_signed_ssv_messages max messages inner_error_fn outer_error_fn = do
    message_vec ← encode_all max inner_error_fn messages
    try_to_variable_list max_signatures message_vec outer_error_fn

  unfoldable pub new_unsigned_message :
      Qbft D
      → QbftMessageType
      → Hash256
      → List SignedSsvMessage
      → List SignedSsvMessage
      → Result QbftError UnsignedWrappedQbftMessage
  new_unsigned_message q msg_type data_hash round_changes prepares = do
    let m = get_message_data q msg_type data_hash
    round_changes' ← clear_full_data round_changes
    prepares' ← clear_full_data prepares
    round_change_bytes ←
        try_encode_signed_ssv_messages round_change_justification_length round_changes'
          round_change_justification_too_big round_change_justification_list_too_big
    prepare_bytes ←
        try_encode_signed_ssv_messages prepare_justification_length prepares'
          prepare_justification_too_big prepare_justification_list_too_big
    let qbft_message : QbftMessage = record {
      qbft_message_type = msg_type;
      height = q.instance_height;
      round = m.round;
      identifier = q.identifier;
      root = m.root;
      data_round = m.data_round;
      round_change_justification = round_change_bytes;
      prepare_justification = prepare_bytes;
    }
    ssv_message ←
        or_panic
          (new_ssv_message ssv_consensus_msg_type q.identifier (env.encode_qbft qbft_message))
    ok (record {
      unsigned_message = record { ssv_message = ssv_message; full_data = m.full_data };
      qbft_message = qbft_message;
    })

module _ {D : Type 0} where
  unfoldable pub get_round_change_justifications : Qbft D → List SignedSsvMessage
  get_round_change_justifications q =
      let round_changes =
        signed_messages (get_messages_for_round q.round_change_container q.current_round) in
      if leb q.current_round first_round
      then []
      else if is_awaiting_proposal q.state
      then (if has_quorum q round_changes then round_changes else [])
      else []

  -- The prepares of `round` for `value`, if they are a quorum.
  unfoldable pub prepares_for : Qbft D → Option Hash256 → Option Round → List SignedSsvMessage
  prepares_for q (some value) (some round) =
      let filtered_prepares = signed_messages (
        keep (λ m. m.qbft_message.root == value)
          (get_messages_for_round q.prepare_container round)) in
      if has_quorum q filtered_prepares then filtered_prepares else []
  prepares_for q _ _ = []

  unfoldable pub get_round_change_prepare_justifications : Qbft D → List SignedSsvMessage
  unfolding prepares_for
  get_round_change_prepare_justifications q =
      prepares_for q q.last_prepared_value q.last_prepared_round
