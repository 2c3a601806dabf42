-- ===== src/Qbft/Instance/RoundChange.antt =====
-- `received_round_change` of anchor/common/qbft/src/lib.rs.
use anchor.Base.{ℕ, ◌+◌, false, Option, none, some, ltb, leb, if◌then◌else◌, length}
use anchor.Base.Result.{Result, ok, err, ◌>>=◌, ◌>>◌, guard}
use anchor.Ssv.Committee.{get_f}
use anchor.Ssv.Round.{Round}
use anchor.Ssv.Consensus.{QbftData, QbftMessage}
use anchor.Qbft.Error.{
  QbftError, invalid_state, round_change_justification_decode_failed,
  round_change_justification_no_quorum, invalid_data_round,
}
use anchor.Qbft.Types.{
  WrappedQbftMessage, sent_round_change, complete, round_change_consensus, to_u8,
}
use anchor.Qbft.Container.{
  add_message, has_quorum_disregarding_root, lowest_partial_quorum_above_round,
}
use anchor.Qbft.Instance.{Qbft, has_quorum, on_ok}
use anchor.Qbft.Instance.Justify.{try_decode_signed_ssv_messages, check_prepares}
use anchor.Qbft.Instance.Send.{send_round_change}
use anchor.Qbft.Instance.Rounds.{set_round}
use anchor.Qbft.Instance.{Outcome}

module _ {D : Type 0} (env : QbftData D) where
  -- The checks of a round change that prepared a value.
  unfoldable pub check_round_change_justification :
      Qbft D → QbftMessage → Result QbftError (Unit {0})
  check_round_change_justification q m =
      if ltb 0 m.data_round
      then (try_decode_signed_ssv_messages env m.round_change_justification
            round_change_justification_decode_failed
          >>= λ prepares.
              guard (has_quorum q prepares) round_change_justification_no_quorum
              >> guard (ltb m.data_round m.round) invalid_data_round
              >> check_prepares env q prepares m.data_round m.root)
      else ok tt

  -- f + 1 operators are ahead: the instance joins the lowest of their rounds.
  unfoldable pub join_round : Qbft D → Option Round → Outcome D
  join_round q none = (ok tt, q)
  join_round q (some round) =
      if ltb q.current_round round
      then send_round_change env
          (record q {
            state = sent_round_change;
            current_round = round;
            proposal_accepted_for_current_round = false;
          })
          0
      else (ok tt, q)

  -- `received_round_change` from the point where the message is stored.
  unfoldable pub count_round_change : Qbft D → ℕ → Round → WrappedQbftMessage → Outcome D
  count_round_change q₀ operator_id round w =
      let had_quorum_before = has_quorum_disregarding_root q₀.round_change_container round in
      let q = record q₀ {
        round_change_container = (add_message q₀.round_change_container round operator_id w).0;
      } in
      if had_quorum_before
      then (ok tt, q)
      else if has_quorum_disregarding_root q.round_change_container round
      then set_round env (record q { state = round_change_consensus }) round
      else join_round q (
          lowest_partial_quorum_above_round q.round_change_container q.current_round
            (get_f (length q.config.committee_members) + 1))

  unfoldable pub received_round_change : Qbft D → ℕ → Round → WrappedQbftMessage → Outcome D
  unfolding to_u8
  received_round_change q operator_id round w =
      if leb (to_u8 complete) (to_u8 q.state)
      then (err invalid_state, q)
      else on_ok (check_round_change_justification q w.qbft_message) q
          λ _. count_round_change q operator_id round w
