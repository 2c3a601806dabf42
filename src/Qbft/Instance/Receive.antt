-- ===== src/Qbft/Instance/Receive.antt =====
-- `receive` and `completed` of anchor/common/qbft/src/lib.rs.
use anchor.Base.{ℕ, Option, none, some, ◌==◌, if◌then◌else◌, length}
use anchor.Base.Maps.{lookup}
use anchor.Base.Result.{ok}
use anchor.Ssv.Round.{Round, from_u64}
use mathlib.Core.Option
use anchor.Ssv.Consensus.{QbftData, proposal, prepare, commit, round_change}
use anchor.Qbft.Types.{WrappedQbftMessage, Completed, success, timed_out}
use anchor.Qbft.Instance.{Qbft, MessageContent, full, hash_only, on_ok}
use anchor.Qbft.Instance.Validate.{validate_message}
use anchor.Qbft.Instance.{Outcome}
use anchor.Qbft.Instance.Propose.{received_propose}
use anchor.Qbft.Instance.Prepare.{received_prepare}
use anchor.Qbft.Instance.Commit.{received_commit}
use anchor.Qbft.Instance.RoundChange.{received_round_change}
use anchor.Qbft.Instance.Decided.{received_decided}

module _ {D : Type 0} (env : QbftData D) where
  -- The `match` of `receive` on the type of the message.
  unfoldable pub dispatch : Qbft D → WrappedQbftMessage → MessageContent D → ℕ → Round → Outcome D
  dispatch q w content signer round = elim w.qbft_message.qbft_message_type [
    | proposal ↦ elim content [
      | full valid_data ↦ received_propose env q valid_data signer round w
      | hash_only _ ↦ (ok tt, q)
    ]
    | prepare ↦ received_prepare env q signer round w
    | commit ↦
        if length w.signed_message.operator_ids == 1
        then received_commit env q signer round w
        else received_decided env q w
    | round_change ↦ received_round_change env q signer round w
  ]

  unfoldable pub receive : Qbft D → WrappedQbftMessage → Outcome D
  receive q w =
      on_ok (validate_message env q w) q
        λ v. on_ok (from_u64 w.qbft_message.round) q λ round. dispatch q w v.0 v.1 round

  -- The data of the decision.
  unfoldable pub completed : Qbft D → Option (Completed D)
  completed q = elim q.completed [
    | none ↦ none
    | some c ↦ elim c [
      | timed_out ↦ some timed_out
      | success hash ↦ Option.map success (lookup hash q.seen_data)
    ]
  ]
