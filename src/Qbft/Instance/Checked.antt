-- ===== src/Qbft/Instance/Checked.antt =====
-- What a message has passed once `validate_message` of anchor/common/qbft/src/lib.rs accepts it.
use anchor.Base.{
  ℕ, ◌≤◌, ◌<◌, ◌≡◌, refl, ap, ◌⊎◌, Bool, true, ◌&&◌, List, [], ◌∷◌, arith, length, every, eq_of_==,
}
use anchor.Base.Result.{ok, guard-eq-ok}
use anchor.Ssv.Consensus.{
  QbftData, QbftMessageType, proposal, prepare, commit, round_change, is_commit,
}
use anchor.Qbft.Types.{WrappedQbftMessage}
use anchor.Qbft.Instance.{Qbft, MessageContent, check_committee, has_quorum}
use anchor.Qbft.Instance.Validate.{
  past_round_ok, future_round_ok, validate_content, validate_signers, validate_message,
}

-- A decided message: a commit that a quorum of the committee signed.
abbrev pub is_decided : {D : Type 0} → Qbft D → WrappedQbftMessage → Bool
is_decided q w = is_commit w.qbft_message.qbft_message_type && has_quorum q (w.signed_message ∷ [])

-- The rounds at which a message of each type is let through.
abbrev pub RoundFits : {D : Type 0} → Qbft D → WrappedQbftMessage → QbftMessageType → Type 0
RoundFits q w prepare = w.qbft_message.round ≡ q.current_round
RoundFits q w commit = (w.qbft_message.round ≡ q.current_round) ⊎ (is_decided q w ≡ true)
RoundFits q w proposal = q.current_round ≤ w.qbft_message.round
RoundFits q w round_change = q.current_round ≤ w.qbft_message.round

pub record IsChecked {D : Type 0} (q : Qbft D) (w : WrappedQbftMessage) (signer : ℕ) : Type 0 where
  pub fits : RoundFits q w w.qbft_message.qbft_message_type
  pub height : w.qbft_message.height ≡ q.instance_height
  pub members : every (check_committee q) w.signed_message.operator_ids ≡ true
  pub signed :
      length w.signed_message.operator_ids ≡ 1 → w.signed_message.operator_ids ≡ signer ∷ []
  pub some_signer : 0 < length w.signed_message.operator_ids

module _ {D : Type 0} (q : Qbft D) (w : WrappedQbftMessage) where
  fits_of_rounds :
      (t : QbftMessageType)
      → w.qbft_message.qbft_message_type ≡ t
      → past_round_ok q w ≡ true
      → future_round_ok q w ≡ true
      → RoundFits q w t
  unfolding past_round_ok future_round_ok
  fits_of_rounds prepare e p f = ground arith
  fits_of_rounds commit e p f = ground arith
  fits_of_rounds proposal e p f = ground arith
  fits_of_rounds round_change e p f = ground arith

module _ {D : Type 0} (env : QbftData D) (q : Qbft D) (w : WrappedQbftMessage) where
  signer_of_content :
      (s : ℕ) (content : MessageContent D) (signer : ℕ)
      → validate_content env q w s ≡ ok (content, signer)
      → s ≡ signer
  unfolding validate_content
  signer_of_content s content signer e = ground arith

  signers_of_ok :
      (ids : List ℕ) (content : MessageContent D) (signer : ℕ)
      → validate_signers env q w ids ≡ ok (content, signer)
      → (length ids ≡ 1 → ids ≡ signer ∷ []) × (0 < length ids)
  unfolding validate_signers
  signers_of_ok [] content signer e = cc
  signers_of_ok (s ∷ []) content signer e =
      (λ _. ap (λ x. x ∷ []) (signer_of_content s content signer e), omega arith)
  signers_of_ok (s ∷ s' ∷ ss) content signer e = (λ l. absurd (omega arith), omega arith)

  -- An accepted message is for this height, has signers, all members of the committee; with one
  -- signer, that one is returned. A prepare is of the current round, a proposal or a round change
  -- of the current or a later one, and a commit of the current one or decided.
  pub validate_message-IsChecked :
      (content : MessageContent D) (signer : ℕ)
      → validate_message env q w ≡ ok (content, signer)
      → IsChecked q w signer
  unfolding validate_message
  validate_message-IsChecked content signer e =
      let (past, e₁) = guard-eq-ok _ _ _ e in
      let (future, e₂) = guard-eq-ok _ _ _ e₁ in
      let (height, e₃) = guard-eq-ok _ _ _ e₂ in
      let (members, e₄) = guard-eq-ok _ _ _ e₃ in
      let (signed, some_signer) = signers_of_ok w.signed_message.operator_ids content signer e₄ in
      record {
        fits = fits_of_rounds q w w.qbft_message.qbft_message_type refl past future;
        height = eq_of_== _ _ height;
        members = members;
        signed = signed;
        some_signer = some_signer;
      }
