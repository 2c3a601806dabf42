-- ===== src/Qbft/Instance/Commit.antt =====
-- `received_commit` and `aggregate_commit_messages` of anchor/common/qbft/src/lib.rs.
use anchor.Base.{
  ℕ, Bool, true, false, not, ◌&&◌, List, [], ◌∷◌, none, some, leb, ◌==◌, if◌then◌else◌, every,
  is_some,
}
use anchor.Base.Maps.{lookup}
use anchor.Base.Result.{Result, ok, err, ◌>>=◌, ◌>>◌, guard, map_err}
use anchor.Ssv.Round.{Round}
use anchor.Ssv.Message.{
  Bytes, MsgType, ssv_consensus_msg_type, ssv_partial_signature_msg_type, SsvMessage,
  SignedSsvMessage, set_full_data,
}
use anchor.Ssv.Message.Aggregate.{aggregate}
use anchor.Ssv.Consensus.{Hash256, QbftData, is_commit}
use anchor.Qbft.Error.{
  QbftError, invalid_state, wrong_message_type, proposal_not_accepted, proposed_data_mismatch,
  proposal_not_found, commit_quorum_mismatch, failed_to_aggregate, signed_ssv_message_error,
  missing_data, missing_commit,
}
use anchor.Qbft.Types.{WrappedQbftMessage, InstanceState, sent_round_change, to_u8}
use anchor.Qbft.Container
use anchor.Qbft.Container.{
  add_message, has_quorum_disregarding_root, lowest_partial_quorum_above_round,
  get_quorum_of_messages,
}
use anchor.Qbft.Instance.{Qbft, on_ok, signed_messages}
use anchor.Qbft.Instance.{Outcome, other_root, finish}

-- `==` of byte strings and of SSV messages.
abbrev pub same_bytes : Bytes → Bytes → Bool
same_bytes [] [] = true
same_bytes (a ∷ as') (b ∷ bs) = a == b && same_bytes as' bs
same_bytes _ _ = false

abbrev pub same_type : MsgType → MsgType → Bool
same_type ssv_consensus_msg_type ssv_consensus_msg_type = true
same_type ssv_partial_signature_msg_type ssv_partial_signature_msg_type = true
same_type _ _ = false

abbrev pub same_ssv_message : SsvMessage → SsvMessage → Bool
same_ssv_message a b =
    same_type a.msg_type b.msg_type
    && (same_bytes a.msg_id b.msg_id && same_bytes a.msg_data b.msg_data)

module _ {D : Type 0} (env : QbftData D) where
  -- The data of the quorum's root goes into the aggregated message.
  unfoldable pub set_aggregate_data :
      Qbft D → Hash256 → SignedSsvMessage → Result QbftError SignedSsvMessage
  set_aggregate_data q hash m = elim (lookup hash q.seen_data) [
    | none ↦ err missing_data
    | some value ↦ map_err signed_ssv_message_error (set_full_data m (env.as_ssz_bytes value))
  ]

  unfoldable pub aggregate_commit_messages :
      Qbft D → List WrappedQbftMessage → Result QbftError SignedSsvMessage
  unfolding set_aggregate_data
  aggregate_commit_messages q [] = err missing_commit
  aggregate_commit_messages q (first_commit ∷ rest) = do
    let m = first_commit.signed_message
    guard (every (λ c. same_ssv_message m.ssv_message c.signed_message.ssv_message) rest)
        commit_quorum_mismatch
    aggregated ← map_err failed_to_aggregate (aggregate m (signed_messages rest))
    set_aggregate_data q first_commit.qbft_message.root aggregated

  -- The commit quorum for `hash`, with the root of the state.
  unfoldable pub complete_with : Qbft D → Round → Hash256 → Hash256 → Outcome D
  complete_with q round hash proposal_root =
      if not (hash == proposal_root)
      then (err proposed_data_mismatch, q)
      else on_ok (aggregate_commit_messages q (get_quorum_of_messages q.commit_container round)) q
          λ m. (ok tt, finish q hash m)

  unfoldable pub on_commit_quorum : Qbft D → Round → Hash256 → InstanceState → Outcome D
  on_commit_quorum q round hash (InstanceState.prepare proposal_root) =
      complete_with q round hash proposal_root
  on_commit_quorum q round hash (InstanceState.commit proposal_root) =
      complete_with q round hash proposal_root
  on_commit_quorum q round hash _ = (err invalid_state, q)

  -- `received_commit` from the point where the message is stored.
  unfoldable pub count_commit : Qbft D → ℕ → Round → WrappedQbftMessage → Outcome D
  count_commit q₀ operator_id round w =
      let (container, added) = add_message q₀.commit_container round operator_id w in
      let q = record q₀ { commit_container = container } in
      if not added then (ok tt, q) else elim (Container.has_quorum q.commit_container round) [
        | none ↦ (ok tt, q)
        | some hash ↦ on_commit_quorum q round hash q.state
      ]

  unfoldable pub received_commit : Qbft D → ℕ → Round → WrappedQbftMessage → Outcome D
  unfolding to_u8
  received_commit q operator_id round w =
      if is_some q.completed
      then (ok tt, q)
      else if leb (to_u8 sent_round_change) (to_u8 q.state)
      then (err invalid_state, q)
      else if not (is_commit w.qbft_message.qbft_message_type)
      then (err wrong_message_type, q)
      else if not q.proposal_accepted_for_current_round
      then (err proposal_not_accepted, q)
      else if not (is_some q.proposal_root)
      then (err proposal_not_found, q)
      else if other_root q.proposal_root w.qbft_message.root
      then (err proposed_data_mismatch, q)
      else count_commit q operator_id round w
