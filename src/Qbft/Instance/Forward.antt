-- ===== src/Qbft/Instance/Forward.antt =====
-- How far a received message moves an instance of anchor/common/qbft/src/lib.rs.
use mathlib.Core.Path.{subst}
use native.Mathlib.Nat.{le_trans}
use anchor.Base.{
  ℕ, ◌≤◌, ◌≡◌, refl, ◌∙◌, inl, inr, false, Option, none, some, arith, ◌==◌, length, Bool-cases,
}
use anchor.Ssv.Round.{Round}
use anchor.Ssv.Consensus.{
  Hash256, QbftData, QbftMessageType, proposal, prepare, commit, round_change,
}
use anchor.Qbft.Types.{success, WrappedQbftMessage, InstanceState}
use anchor.Qbft.Instance.{Qbft, MessageContent, full, hash_only, ValidData, is_success}
use anchor.Qbft.Instance.Frame.{
  Extends, send_prepare-Extends, send_commit-Extends, send_round_change-Extends,
  start_round-Extends,
}
use anchor.Qbft.Instance.Checked.{IsChecked, RoundFits, validate_message-IsChecked}
use anchor.Qbft.Instance.Rounds.{set_round}
use anchor.Qbft.Instance.Propose.{accept_proposal, received_propose}
use anchor.Qbft.Instance.Prepare.{count_prepare, received_prepare}
use anchor.Qbft.Instance.Commit.{on_commit_quorum, received_commit}
use anchor.Qbft.Instance.RoundChange.{join_round, received_round_change}
use anchor.Qbft.Instance.Decided.{received_decided}
use anchor.Qbft.Instance.Receive.{dispatch, receive}
use anchor.Qbft.Instance.Paths.{
  with_prepare, with_commit, with_round_change, received_propose_paths, store_proposal_paths,
  received_prepare_paths, count_prepare_paths, on_prepare_quorum_paths, received_commit_paths,
  count_commit_paths, on_commit_quorum_paths, received_round_change_paths, count_round_change_paths,
  join_round_paths, received_decided_paths, receive_paths,
}

-- The later state has the configuration, a round that is not lower, and a decision of the earlier
-- one with its aggregated commit.
pub record Forward {D : Type 0} (q q' : Qbft D) : Type 0 where
  pub config : q'.config ≡ q.config
  pub round : q.current_round ≤ q'.current_round
  pub decision :
      (h : Hash256)
      → q.completed ≡ some (success h)
      → (q'.completed ≡ some (success h)) × (q'.aggregated_commit ≡ q.aggregated_commit)

module _ {D : Type 0} where
  pub Forward-refl : (q : Qbft D) → Forward q q
  Forward-refl q = record { config = refl; round = omega arith; decision = λ h e. (e, refl) }

  pub Forward-trans : {q r s : Qbft D} → Forward q r → Forward r s → Forward q s
  Forward-trans e f = record {
    config = f.config ∙ e.config;
    round = le_trans e.round f.round;
    decision =
        λ h d. let (d', a) = e.decision h d in let (d'', a') = f.decision h d' in (d'', a' ∙ a);
  }

  Extends-Forward : {q r s : Qbft D} → Forward q r → Extends r s → Forward q s
  Extends-Forward f e = Forward-trans f (record {
    config = e.config;
    round = rw e.round (omega arith);
    decision = λ h d. (e.decision ∙ d, e.aggregate);
  })

  -- A step of an instance that has not decided, to a round that is not lower.
  Forward-undecided :
      (q q' : Qbft D)
      → q'.config ≡ q.config
      → q.current_round ≤ q'.current_round
      → is_success q.completed ≡ false
      → Forward q q'
  Forward-undecided q q' c r n = record {
    config = c;
    round = r;
    decision = λ h d. ground (arith, n, d);
  }

  -- A step that only changes what the order does not look at, to a round that is not lower.
  Forward-keep :
      (q q' : Qbft D)
      → q'.config ≡ q.config
      → q.current_round ≤ q'.current_round
      → q'.completed ≡ q.completed
      → q'.aggregated_commit ≡ q.aggregated_commit
      → Forward q q'
  Forward-keep q q' c r d a = record { config = c; round = r; decision = λ h e. (d ∙ e, a) }

module _ {D : Type 0} (env : QbftData D) (q : Qbft D) where
  join_round-Forward : (next : Option Round) → Forward q (join_round env q next).1
  join_round-Forward next = elim (join_round_paths env q next) [
    | inl e ↦ rw e (Forward-refl q)
    | inr (r, ahead, e) ↦ rw e (
        Extends-Forward (Forward-keep q _ refl (omega arith) refl refl)
          (send_round_change-Extends env _ 0))
  ]

  received_decided-Forward : (w : WrappedQbftMessage) → Forward q (received_decided env q w).1
  received_decided-Forward w = elim (received_decided_paths env q w) [
    | inl e ↦ rw e (Forward-refl q)
    | inr (value, _, undecided, _, _, e) ↦ rw e (Forward-undecided q _ refl (omega arith) undecided)
  ]

  on_commit_quorum-Forward :
      (round : Round) (hash : Hash256) (s : InstanceState)
      → q.completed ≡ none
      → Forward q (on_commit_quorum env q round hash s).1
  on_commit_quorum-Forward round hash s undecided =
      elim (on_commit_quorum_paths env q round hash s) [
        | inl e ↦ rw e (Forward-refl q)
        | inr (m, _, _, e) ↦ rw e (Forward-undecided q _ refl (omega arith) (rw undecided refl))
      ]

  count_prepare-Forward :
      (round : Round) (w : WrappedQbftMessage) → Forward q (count_prepare env q round w).1
  count_prepare-Forward round w = elim (count_prepare_paths env q 0 round w) [
    | inl e ↦ rw e (Forward-refl q)
    | inr (hash, _, e) ↦ rw e (elim (on_prepare_quorum_paths env q hash q.state) [
      | inl e' ↦ rw e' (Forward-refl q)
      | inr (_, e') ↦ rw e' (
          Extends-Forward (Forward-keep q _ refl (omega arith) refl refl)
            (send_commit-Extends env _ hash))
    ])
  ]

  accept_proposal-Forward :
      (v : ValidData D) (round : Round) (w : WrappedQbftMessage)
      → Forward q (accept_proposal env q v round w).1
  unfolding accept_proposal
  accept_proposal-Forward v round w =
      Extends-Forward (Forward-keep q _ refl (ground arith) refl refl)
        (send_prepare-Extends env _ w.qbft_message.root)

module _ {D : Type 0} (env : QbftData D) (q : Qbft D) (op : ℕ) (round : Round)
    (w : WrappedQbftMessage) where
  received_propose-Forward : (v : ValidData D) → Forward q (received_propose env q v op round w).1
  received_propose-Forward v = elim (received_propose_paths env q op round w v) [
    | inl e ↦ rw e (Forward-refl q)
    | inr (_, e) ↦ rw e (elim (store_proposal_paths env q op round w v) [
      | inl e' ↦ rw e' (Forward-keep q _ refl (omega arith) refl refl)
      | inr e' ↦ rw e' (
          Forward-trans (Forward-keep q _ refl (omega arith) refl refl)
            (accept_proposal-Forward env _ v round w))
    ])
  ]

  received_prepare-Forward : Forward q (received_prepare env q op round w).1
  received_prepare-Forward = elim (received_prepare_paths env q op round w) [
    | inl e ↦ rw e (Forward-refl q)
    | inr (inl e) ↦ rw e (Forward-keep q _ refl (omega arith) refl refl)
    | inr (inr (_, e)) ↦ rw e (
        Forward-trans (Forward-keep q (with_prepare q op round w) refl (omega arith) refl refl)
          (count_prepare-Forward env _ round w))
  ]

  received_commit-Forward : Forward q (received_commit env q op round w).1
  received_commit-Forward = elim (received_commit_paths env q op round w) [
    | inl e ↦ rw e (Forward-refl q)
    | inr (undecided, _, _, e) ↦ rw e (elim (count_commit_paths env q op round w) [
      | inl e' ↦ rw e' (Forward-keep q _ refl (omega arith) refl refl)
      | inr (hash, _, e') ↦ rw e' (
          Forward-trans (Forward-keep q (with_commit q op round w) refl (omega arith) refl refl)
            (on_commit_quorum-Forward env _ round hash q.state undecided))
    ])
  ]

  received_round_change-Forward :
      q.current_round ≤ round → Forward q (received_round_change env q op round w).1
  unfolding set_round
  received_round_change-Forward ahead = elim (received_round_change_paths env q op round w) [
    | inl e ↦ rw e (Forward-refl q)
    | inr e ↦ rw e (elim (count_round_change_paths env q op round w) [
      | inl e' ↦ rw e' (Forward-keep q _ refl (omega arith) refl refl)
      | inr (inl e') ↦
          rw e'
            (Extends-Forward (Forward-keep q _ refl ahead refl refl) (start_round-Extends env _))
      | inr (inr e') ↦ rw e' (
          Forward-trans
            (Forward-keep q (with_round_change q op round w) refl (omega arith) refl refl)
            (join_round-Forward env _ _))
    ])
  ]

module _ {D : Type 0} (env : QbftData D) (q : Qbft D) (w : WrappedQbftMessage) where
  dispatch-Forward :
      (t : QbftMessageType) (content : MessageContent D) (signer : ℕ)
      → w.qbft_message.qbft_message_type ≡ t
      → IsChecked q w signer
      → Forward q (dispatch env q w content signer w.qbft_message.round).1
  unfolding dispatch
  dispatch-Forward proposal (full v) signer e c =
      rw (e, dispatch) (received_propose-Forward env q signer w.qbft_message.round w v)
  dispatch-Forward proposal (hash_only h) signer e c = rw (e, dispatch) (Forward-refl q)
  dispatch-Forward prepare content signer e c =
      rw (e, dispatch) (received_prepare-Forward env q signer w.qbft_message.round w)
  dispatch-Forward commit content signer e c =
      elim (Bool-cases (length w.signed_message.operator_ids == 1)) [
        | inl l ↦ rw (e, dispatch, l) (received_commit-Forward env q signer w.qbft_message.round w)
        | inr l ↦ rw (e, dispatch, l) (received_decided-Forward env q w)
      ]
  dispatch-Forward round_change content signer e c =
      rw (e, dispatch)
        (received_round_change-Forward env q signer w.qbft_message.round w
          (subst (RoundFits q w) e c.fits))

  pub receive-Forward : Forward q (receive env q w).1
  receive-Forward = elim (receive_paths env q w) [
    | inl e ↦ rw e (Forward-refl q)
    | inr (content, signer, v, _, e) ↦ rw e (
        dispatch-Forward w.qbft_message.qbft_message_type content signer refl
          (validate_message-IsChecked env q w content signer v))
  ]
