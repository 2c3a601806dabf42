-- ===== src/Qbft/Instance/Propose.antt =====
-- `received_propose` of anchor/common/qbft/src/lib.rs.
use anchor.Base.{ℕ, true, not, ◌&&◌, some, ltb, ◌==◌, if◌then◌else◌}
use anchor.Base.Maps.{put}
use anchor.Base.Result.{ok, err}
use anchor.Ssv.Round.{Round, first_round}
use anchor.Ssv.Consensus.{QbftData}
use anchor.Qbft.Error.{
  invalid_state, proposal_not_from_leader, duplicate_proposal, proposal_already_received,
}
use anchor.Qbft.Types.{WrappedQbftMessage, InstanceState, is_awaiting_proposal}
use anchor.Qbft.Container.{add_message}
use anchor.Qbft.Instance.{Qbft, ValidData, check_leader, on_ok}
use anchor.Qbft.Instance.Justify.{validate_proposal_justifications}
use anchor.Qbft.Instance.Send.{send_prepare}
use anchor.Qbft.Instance.{Outcome}

module _ {D : Type 0} (env : QbftData D) where
  -- The end of `received_propose`: the proposal is accepted and a prepare is sent.
  unfoldable pub accept_proposal : Qbft D → ValidData D → Round → WrappedQbftMessage → Outcome D
  accept_proposal q valid_data round w =
      send_prepare env
        (record q {
          current_round = if ltb q.current_round round then round else q.current_round;
          proposal_accepted_for_current_round = true;
          proposal_root = some valid_data.hash;
          state = InstanceState.prepare valid_data.hash;
        })
        w.qbft_message.root

  -- `received_propose` from the point where the message is stored.
  unfoldable pub store_proposal : Qbft D → ValidData D → ℕ → Round → WrappedQbftMessage → Outcome D
  store_proposal q₀ valid_data operator_id round w =
      let q₁ = record q₀ { seen_data = put valid_data.hash valid_data.value q₀.seen_data } in
      let (container, added) = add_message q₁.propose_container round operator_id w in
      let q = record q₁ { propose_container = container } in
      if not added
      then (err duplicate_proposal, q)
      else if q.proposal_accepted_for_current_round && round == q.current_round
      then (err proposal_already_received, q)
      else accept_proposal q valid_data round w

  unfoldable pub received_propose :
      Qbft D → ValidData D → ℕ → Round → WrappedQbftMessage → Outcome D
  received_propose q valid_data operator_id round w =
      if round == q.current_round && not (is_awaiting_proposal q.state)
      then (err invalid_state, q)
      else if not (check_leader q operator_id round)
      then (err proposal_not_from_leader, q)
      else on_ok (if ltb first_round round then validate_proposal_justifications env q w else ok tt)
          q λ _. store_proposal q valid_data operator_id round w
