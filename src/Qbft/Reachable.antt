-- ===== src/Qbft/Reachable.antt =====
-- Every history of an instance: `Qbft::new`, then messages received and rounds ended, in any order
-- (anchor/common/qbft/src/lib.rs, as qbft_manager/src/instance.rs drives it).
use mathlib.Core.Path.{subst}
use anchor.Base.{
  eq_of_==, ◌==◌, ℕ, ◌≡◌, refl, ◌⊎◌, inl, inr, true, [], ◌∷◌, arith, length, ltb, Bool-cases,
  Option-cases,
}
use anchor.Base.Sets.{contains}
use anchor.Ssv.Round.{next}
use anchor.Ssv.Message.{Bytes}
use anchor.Ssv.Consensus.{
  QbftData, QbftMessageType, proposal, prepare, commit, round_change, is_commit,
}
use anchor.Qbft.Types.{WrappedQbftMessage}
use anchor.Qbft.Config.{Config}
use anchor.Qbft.Instance.{Qbft, MessageContent, full, hash_only, check_committee}
use anchor.Qbft.Instance.Frame.{send_round_change-Extends, start_if_sent-Extends}
use anchor.Qbft.Instance.Invariant.{Inv, Extends-Inv, new-Inv}
use anchor.Qbft.Instance.Checked.{IsChecked, RoundFits, validate_message-IsChecked}
use anchor.Qbft.Instance.Rounds
use anchor.Qbft.Instance.Rounds.{end_round, time_out}
use anchor.Qbft.Instance.Paths.{receive_paths}
use anchor.Qbft.Instance.Preserved.{received_propose-Inv, received_round_change-Inv}
use anchor.Qbft.Instance.Quorums.{received_prepare-Inv, received_commit-Inv, received_decided-Inv}
use anchor.Qbft.Instance.Receive.{dispatch, receive}

-- What message_validator lets through: only a commit may have several signers
-- (`NonDecidedWithMultipleSigners` in anchor/message_validator/src/consensus_message.rs).
abbrev pub IsAdmissible : WrappedQbftMessage → Type 0
IsAdmissible w =
    (length w.signed_message.operator_ids ≡ 1) ⊎ (is_commit w.qbft_message.qbft_message_type ≡ true)

module _ {D : Type 0} (env : QbftData D) (q : Qbft D) (w : WrappedQbftMessage) (i : Inv q) where
  one_signer :
      (signer : ℕ)
      → IsChecked q w signer
      → w.signed_message.operator_ids ≡ signer ∷ []
      → contains q.config.committee_members signer ≡ true
  unfolding check_committee
  one_signer signer c own = ground (arith, c.members, own)

  dispatch-Inv :
      (t : QbftMessageType) (content : MessageContent D) (signer : ℕ)
      → w.qbft_message.qbft_message_type ≡ t
      → IsAdmissible w
      → IsChecked q w signer
      → Inv (dispatch env q w content signer w.qbft_message.round).1
  unfolding dispatch
  dispatch-Inv proposal (full v) signer e a c =
      rw (e, dispatch) (received_propose-Inv env q v signer w.qbft_message.round w i)
  dispatch-Inv proposal (hash_only h) signer e a c = rw (e, dispatch) i
  dispatch-Inv prepare content signer e a c =
      let own = c.signed (elim a [ inl l ↦ l | inr k ↦ absurd (ground (arith, e, k)) ]) in
      rw (e, dispatch)
        (received_prepare-Inv env q signer w.qbft_message.round w own (one_signer signer c own) i
          (subst (RoundFits q w) e c.fits))
  dispatch-Inv commit content signer e a c =
      elim (Bool-cases (length w.signed_message.operator_ids == 1)) [
        | inl l ↦
            let own = c.signed (eq_of_== _ _ l) in
            rw (e, dispatch, l)
              (received_commit-Inv env q signer w.qbft_message.round w own (one_signer signer c own)
                i)
        | inr l ↦ rw (e, dispatch, l) (received_decided-Inv env q w i)
      ]
  dispatch-Inv round_change content signer e a c =
      let own = c.signed (elim a [ inl l ↦ l | inr k ↦ absurd (ground (arith, e, k)) ]) in
      rw (e, dispatch)
        (received_round_change-Inv env q signer w.qbft_message.round w own (one_signer signer c own)
          i)

  -- A received message keeps the invariant, whatever it is and whether or not it is refused.
  pub receive-Inv : IsAdmissible w → Inv (receive env q w).1
  receive-Inv a = elim (receive_paths env q w) [
    | inl e ↦ rw e i
    | inr (content, signer, v, _, e) ↦ rw e (
        dispatch-Inv w.qbft_message.qbft_message_type content signer refl a
          (validate_message-IsChecked env q w content signer v))
  ]

module _ {D : Type 0} (env : QbftData D) where
  time_out-Inv : (q : Qbft D) → Inv q → Inv (time_out env q)
  time_out-Inv q i = record {
    prepare_votes = i.prepare_votes;
    commit_votes = i.commit_votes;
    round_change_votes = i.round_change_votes;
    prepared = i.prepared;
    data_known = λ h e. cc;
    has_aggregate = λ h e. cc;
    backed = λ h e. cc;
  }

  pub end_round-Inv : (q : Qbft D) → Inv q → Inv (end_round env q).1
  unfolding end_round
  end_round-Inv q i = elim (Option-cases (next q.current_round)) [
    | inl e ↦ rw (e, end_round) (time_out-Inv q i)
    | inr (r, e) ↦ elim (Bool-cases (ltb q.config.max_rounds r)) [
      | inl late ↦ rw (e, end_round, late) (time_out-Inv q i)
      | inr more ↦
          rw (e, end_round, more)
            (Extends-Inv (start_if_sent-Extends env _ _ (send_round_change-Extends env _ 0)) i)
    ]
  ]

-- The states of an instance: after `new`, after a message that message_validator lets through,
-- and after the end of a round.
pub data Reach {D : Type 0} (env : QbftData D) (config : Config) : Qbft D → Type 0 where
  created : (start : D) (id : Bytes) → Reach env config (Rounds.new env config start id).1
  received :
      (q : Qbft D) (w : WrappedQbftMessage)
      → Reach env config q
      → IsAdmissible w
      → Reach env config (receive env q w).1
  ended : (q : Qbft D) → Reach env config q → Reach env config (end_round env q).1

module _ {D : Type 0} (env : QbftData D) (config : Config) where
  -- The invariant holds of every reachable state.
  pub Reach-Inv : (q : Qbft D) → Reach env config q → Inv q
  Reach-Inv q (created start id) = new-Inv env config start id
  Reach-Inv q (received p w r a) = receive-Inv env p w (Reach-Inv p r) a
  Reach-Inv q (ended p r) = end_round-Inv env p (Reach-Inv p r)
