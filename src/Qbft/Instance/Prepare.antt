-- ===== src/Qbft/Instance/Prepare.antt =====
-- `received_prepare` of anchor/common/qbft/src/lib.rs.
use anchor.Base.{ℕ, not, none, some, leb, ◌==◌, if◌then◌else◌, is_some}
use anchor.Base.Result.{ok, err}
use anchor.Ssv.Round.{Round}
use anchor.Ssv.Consensus.{Hash256, QbftData, is_prepare}
use anchor.Qbft.Error.{
  invalid_state, wrong_message_type, proposal_not_accepted, proposed_data_mismatch,
}
use anchor.Qbft.Types.{WrappedQbftMessage, InstanceState, sent_round_change, to_u8}
use anchor.Qbft.Container
use anchor.Qbft.Container.{
  add_message, has_quorum_disregarding_root, lowest_partial_quorum_above_round,
  get_quorum_of_messages,
}
use anchor.Qbft.Instance.{Qbft}
use anchor.Qbft.Instance.Send.{send_commit}
use anchor.Qbft.Instance.{Outcome, other_root}

module _ {D : Type 0} (env : QbftData D) where
  -- The prepare quorum for `hash`, in each state.
  unfoldable pub on_prepare_quorum : Qbft D → Hash256 → InstanceState → Outcome D
  on_prepare_quorum q hash (InstanceState.prepare proposal_root) =
      if not (hash == proposal_root)
      then (err proposed_data_mismatch, q)
      else send_commit env
          (record q {
            state = InstanceState.commit proposal_root;
            last_prepared_value = some hash;
            last_prepared_round = some q.current_round;
          })
          hash
  on_prepare_quorum q hash _ = (ok tt, q)

  -- The tests of `received_prepare` after the message was stored.
  unfoldable pub count_prepare : Qbft D → Round → WrappedQbftMessage → Outcome D
  count_prepare q round w =
      if not q.proposal_accepted_for_current_round
      then (err proposal_not_accepted, q)
      else if other_root q.proposal_root w.qbft_message.root
      then (err proposed_data_mismatch, q)
      else elim (Container.has_quorum q.prepare_container round) [
        | none ↦ (ok tt, q)
        | some hash ↦ on_prepare_quorum q hash q.state
      ]

  unfoldable pub received_prepare : Qbft D → ℕ → Round → WrappedQbftMessage → Outcome D
  unfolding to_u8
  received_prepare q operator_id round w =
      let (container, added) = add_message q.prepare_container round operator_id w in
      let q' = record q { prepare_container = container } in
      if is_some q.completed
      then (ok tt, q)
      else if leb (to_u8 sent_round_change) (to_u8 q.state)
      then (err invalid_state, q)
      else if not (is_prepare w.qbft_message.qbft_message_type)
      then (err wrong_message_type, q)
      else if not added
      then (ok tt, q')
      else count_prepare q' round w
