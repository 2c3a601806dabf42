-- ===== src/Qbft/Instance/Validate.antt =====
-- `validate_message` of anchor/common/qbft/src/lib.rs: what is checked of every message.
use anchor.Base.{
  ℕ, Bool, true, false, ◌&&◌, List, [], ◌∷◌, none, some, ltb, ◌==◌, if◌then◌else◌, every, is_empty,
  ◌||◌,
}
use anchor.Base.Result.{Result, ok, err, ◌>>◌, guard}
use anchor.Ssv.Consensus.{
  QbftData, QbftMessageType, proposal, prepare, commit, round_change, is_commit, is_round_change,
}
use anchor.Qbft.Error.{
  QbftError, past_round, wrong_round, wrong_height, signer_not_in_committee, missing_operators,
  invalid_full_data, data_validation_failed,
}
use anchor.Qbft.Types.{WrappedQbftMessage}
use anchor.Qbft.Instance.{Qbft, MessageContent, full, hash_only, check_committee, has_quorum}

-- The `match` on the type of a message of a future round; `decided` is its quorum test.
abbrev pub allowed_in_future : QbftMessageType → Bool → Bool
allowed_in_future proposal decided = true
allowed_in_future round_change decided = true
allowed_in_future commit decided = decided
allowed_in_future prepare decided = false

module _ {D : Type 0} where
  -- A message of a past round passes only if it is decided.
  unfoldable pub past_round_ok : Qbft D → WrappedQbftMessage → Bool
  past_round_ok q w =
      if ltb w.qbft_message.round q.current_round
      then is_commit w.qbft_message.qbft_message_type && has_quorum q (w.signed_message ∷ [])
      else true

  unfoldable pub future_round_ok : Qbft D → WrappedQbftMessage → Bool
  future_round_ok q w =
      if ltb q.current_round w.qbft_message.round
      then allowed_in_future w.qbft_message.qbft_message_type (has_quorum q (w.signed_message ∷ []))
      else true

module _ {D : Type 0} (env : QbftData D) where
  -- The part for one signer: its data is decoded and validated, if the message carries data.
  unfoldable pub validate_content :
      Qbft D → WrappedQbftMessage → ℕ → Result QbftError (MessageContent D × ℕ)
  validate_content q w signer =
      if is_empty w.signed_message.full_data || is_round_change w.qbft_message.qbft_message_type
      then ok (hash_only w.qbft_message.root, signer)
      else elim (env.from_ssz_bytes w.signed_message.full_data) [
        | none ↦ err invalid_full_data
        | some value ↦
            if env.validate value q.start_data
            then ok (full (record { hash = w.qbft_message.root; value = value }), signer)
            else err data_validation_failed
      ]

  -- The operator of a message with several signers is 0.
  unfoldable pub validate_signers :
      Qbft D → WrappedQbftMessage → List ℕ → Result QbftError (MessageContent D × ℕ)
  unfolding validate_content
  validate_signers q w [] = err missing_operators
  validate_signers q w (signer ∷ []) = validate_content q w signer
  validate_signers q w (_ ∷ _ ∷ _) = ok (hash_only w.qbft_message.root, 0)

  unfoldable pub validate_message :
      Qbft D → WrappedQbftMessage → Result QbftError (MessageContent D × ℕ)
  unfolding validate_signers past_round_ok future_round_ok
  validate_message q w = do
    guard (past_round_ok q w) past_round
    guard (future_round_ok q w) wrong_round
    guard (w.qbft_message.height == q.instance_height) wrong_height
    guard (every (check_committee q) w.signed_message.operator_ids) signer_not_in_committee
    validate_signers q w w.signed_message.operator_ids
