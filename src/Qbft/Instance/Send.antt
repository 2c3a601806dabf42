-- ===== src/Qbft/Instance/Send.antt =====
-- The messages that an instance sends: `get_prepare_justifications` and `send_*` of
-- anchor/common/qbft/src/lib.rs.
use anchor.Qbft.Instance.Outgoing.{
  new_unsigned_message, get_round_change_justifications, get_round_change_prepare_justifications,
}
use anchor.Base.{
  false, not, List, [], ◌∷◌, ◌++◌, Option, none, some, ltb, ◌==◌, if◌then◌else◌, is_empty, is_some,
}
use anchor.Base.Maps.{lookup, put}
use anchor.Base.Result.{Result, ok, err, ◌>>=◌}
use anchor.Ssv.Round.{first_round}
use anchor.Ssv.Message.{SignedSsvMessage}
use anchor.Ssv.Consensus.{Hash256, QbftData, proposal, prepare, commit, round_change}
use anchor.Qbft.Error.{
  QbftError, missing_data, missing_last_prepared_value, round_change_justification_decode_failed,
}
use anchor.Qbft.Types.{WrappedQbftMessage, UnsignedWrappedQbftMessage, is_awaiting_proposal}
use anchor.Qbft.Container.{get_messages_for_round}
use anchor.Qbft.Instance.{Qbft, has_quorum, signed_messages, on_ok}
use anchor.Qbft.Instance.Justify.{try_decode_signed_ssv_messages}

-- The loop over the round changes: of equal prepared rounds, the first.
unfoldable pub first_highest_prepared :
    Option WrappedQbftMessage → List WrappedQbftMessage → Option WrappedQbftMessage
first_highest_prepared best [] = best
first_highest_prepared none (m ∷ ms) =
    first_highest_prepared (if ltb 0 m.qbft_message.data_round then some m else none) ms
first_highest_prepared (some b) (m ∷ ms) =
    first_highest_prepared
      (some (if ltb b.qbft_message.data_round m.qbft_message.data_round then m else b)) ms

abbrev pub or_hash : Option Hash256 → Hash256 → Hash256
or_hash none hash = hash
or_hash (some value) hash = value

module _ {D : Type 0} where
  -- `message_sender.send`
  abbrev pub send : Qbft D → UnsignedWrappedQbftMessage → Qbft D
  send q m = record q { sent = q.sent ++ m ∷ [] }

module _ {D : Type 0} (env : QbftData D) where
  unfoldable pub justification_of :
      Qbft D → WrappedQbftMessage → Result QbftError (List SignedSsvMessage × Option Hash256)
  justification_of q highest_rc = do
    prepare_msgs ←
        try_decode_signed_ssv_messages env highest_rc.qbft_message.round_change_justification
          round_change_justification_decode_failed
    if has_quorum q prepare_msgs
        then ok (prepare_msgs, some highest_rc.qbft_message.root)
        else ok ([], none)

  unfoldable pub get_prepare_justifications :
      Qbft D → Result QbftError (List SignedSsvMessage × Option Hash256)
  unfolding justification_of
  get_prepare_justifications q =
      let own = get_round_change_prepare_justifications q in
      let round_changes = get_messages_for_round q.round_change_container q.current_round in
      if q.current_round == first_round
      then ok ([], none)
      else if not (is_awaiting_proposal q.state)
      then ok ([], none)
      else if not (is_empty own)
      then elim q.last_prepared_value [
        | none ↦ err missing_last_prepared_value
        | some last_prepared ↦ ok (own, some last_prepared)
      ]
      else if not (has_quorum q (signed_messages round_changes))
      then ok ([], none)
      else elim (first_highest_prepared none round_changes) [
        | none ↦ ok ([], none)
        | some highest_rc ↦ justification_of q highest_rc
      ]

  unfoldable pub send_proposal : Qbft D → Hash256 → D → Result QbftError (Unit {0}) × Qbft D
  send_proposal q₀ hash value =
      let q = record q₀ { seen_data = put hash value q₀.seen_data } in
      on_ok (get_prepare_justifications q) q λ p.
        on_ok
          (new_unsigned_message env q proposal (or_hash p.1 hash)
            (get_round_change_justifications q) p.0)
          q λ m. (ok tt, send q m)

  unfoldable pub send_prepare : Qbft D → Hash256 → Result QbftError (Unit {0}) × Qbft D
  send_prepare q data_hash =
      if not (is_some (lookup data_hash q.seen_data))
      then (err missing_data, q)
      else on_ok (new_unsigned_message env q prepare data_hash [] []) q λ m. (ok tt, send q m)

  unfoldable pub send_commit : Qbft D → Hash256 → Result QbftError (Unit {0}) × Qbft D
  send_commit q data_hash =
      on_ok (new_unsigned_message env q commit data_hash [] []) q λ m. (ok tt, send q m)

  -- The accepted proposal is forgotten before the message goes out.
  unfoldable pub send_round_change : Qbft D → Hash256 → Result QbftError (Unit {0}) × Qbft D
  send_round_change q data_hash =
      on_ok
        (new_unsigned_message env q round_change data_hash
          (get_round_change_prepare_justifications q) [])
        q λ m. (ok tt, send (record q { proposal_accepted_for_current_round = false }) m)
