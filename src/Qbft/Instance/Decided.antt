-- ===== src/Qbft/Instance/Decided.antt =====
-- `received_decided` of anchor/common/qbft/src/lib.rs.
use anchor.Base.{not, [], ◌∷◌, none, some, if◌then◌else◌}
use anchor.Base.Maps.{put}
use anchor.Base.Result.{ok, err}
use anchor.Ssv.Consensus.{QbftData}
use anchor.Qbft.Error.{not_enough_signatures, invalid_full_data}
use anchor.Qbft.Types.{WrappedQbftMessage}
use anchor.Qbft.Instance.{Qbft, has_quorum}
use anchor.Qbft.Instance.{Outcome, is_success, finish}

module _ {D : Type 0} (env : QbftData D) where
  -- The decoded and validated data of a decided message.
  unfoldable pub adopt_decided : Qbft D → WrappedQbftMessage → Outcome D
  adopt_decided q w = elim (env.from_ssz_bytes w.signed_message.full_data) [
    | none ↦ (err invalid_full_data, q)
    | some value ↦ if not (env.validate value q.start_data) then (err invalid_full_data, q) else (
      ok tt,
      finish (record q { seen_data = put w.qbft_message.root value q.seen_data })
          w.qbft_message.root w.signed_message,
    )
  ]

  unfoldable pub received_decided : Qbft D → WrappedQbftMessage → Outcome D
  received_decided q w =
      if not (has_quorum q (w.signed_message ∷ []))
      then (err not_enough_signatures, q)
      else if is_success q.completed
      then (ok tt, q)
      else adopt_decided q w
