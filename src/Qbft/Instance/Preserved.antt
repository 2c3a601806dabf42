-- ===== src/Qbft/Instance/Preserved.antt =====
-- The handlers of proposals and of round changes of anchor/common/qbft/src/lib.rs keep the invariant, and so
-- does a vote that is stored.
use anchor.Base.{ℕ, ◌≡◌, inl, inr, true, [], ◌∷◌, Option}
use anchor.Base.Sets.{contains}
use native.Mathlib.Nat.{le_trans}
use anchor.Qbft.Instance.Rounds.{set_round}
use anchor.Ssv.Round.{Round}
use anchor.Ssv.Consensus.{QbftData}
use anchor.Qbft.Types.{WrappedQbftMessage}
use anchor.Qbft.Instance.{Qbft, ValidData}
use anchor.Qbft.Instance.Frame.{
  Extends-put, send_prepare-Extends, send_round_change-Extends, start_round-Extends,
}
use anchor.Qbft.Instance.Invariant.{
  Inv, Extends-Inv, add_message-Holds, count_root-add_message, add_message-IsBacked,
}
use anchor.Qbft.Instance.Paths.{
  with_data, with_proposal, with_prepare, with_commit, with_round_change, received_propose_paths,
  store_proposal_paths, received_round_change_paths, count_round_change_paths, join_round_paths,
}
use anchor.Qbft.Instance.Propose.{accept_proposal, store_proposal, received_propose}
use anchor.Qbft.Instance.RoundChange.{join_round, received_round_change}

module _ {D : Type 0} (env : QbftData D) where
  accept_proposal-Inv :
      (q : Qbft D) (v : ValidData D) (round : Round) (w : WrappedQbftMessage)
      → Inv q
      → Inv (accept_proposal env q v round w).1
  unfolding accept_proposal
  accept_proposal-Inv q v round w i = Extends-Inv (send_prepare-Extends env _ w.qbft_message.root) i

  store_proposal-Inv :
      (q : Qbft D) (v : ValidData D) (op : ℕ) (round : Round) (w : WrappedQbftMessage)
      → Inv q
      → Inv (store_proposal env q v op round w).1
  store_proposal-Inv q v op round w i =
      let stored = with_proposal (with_data q v.hash v.value) op round w in
      let i' : Inv stored = Extends-Inv (Extends-put q v.hash v.value) i in
      elim (store_proposal_paths env q op round w v) [
        | inl e ↦ rw e i'
        | inr e ↦ rw e (accept_proposal-Inv stored v round w i')
      ]

  pub received_propose-Inv :
      (q : Qbft D) (v : ValidData D) (op : ℕ) (round : Round) (w : WrappedQbftMessage)
      → Inv q
      → Inv (received_propose env q v op round w).1
  received_propose-Inv q v op round w i = elim (received_propose_paths env q op round w v) [
    | inl e ↦ rw e i
    | inr (_, e) ↦ rw e (store_proposal-Inv q v op round w i)
  ]

module _ {D : Type 0} (env : QbftData D) where
  join_round-Inv : (q : Qbft D) (next : Option Round) → Inv q → Inv (join_round env q next).1
  join_round-Inv q next i = elim (join_round_paths env q next) [
    | inl e ↦ rw e i
    | inr (r, _, e) ↦ rw e (Extends-Inv (send_round_change-Extends env _ 0) i)
  ]

-- The handlers of votes: the message is a member's, who is its one signer.
module _ {D : Type 0} (env : QbftData D) (q : Qbft D) (op : ℕ) (round : Round)
    (w : WrappedQbftMessage) (own : w.signed_message.operator_ids ≡ op ∷ [])
    (member : contains q.config.committee_members op ≡ true) (i : Inv q) where
  pub with_prepare-Inv : Inv (with_prepare q op round w)
  with_prepare-Inv = record {
    prepare_votes =
        add_message-Holds q.config q.prepare_container round op w own member i.prepare_votes;
    commit_votes = i.commit_votes;
    round_change_votes = i.round_change_votes;
    prepared = λ v r hv hr.
        le_trans (i.prepared v r hv hr) (count_root-add_message q.prepare_container round op w v r);
    data_known = i.data_known;
    has_aggregate = i.has_aggregate;
    backed = i.backed;
  }

  pub with_commit-Inv : Inv (with_commit q op round w)
  with_commit-Inv = record {
    prepare_votes = i.prepare_votes;
    commit_votes =
        add_message-Holds q.config q.commit_container round op w own member i.commit_votes;
    round_change_votes = i.round_change_votes;
    prepared = i.prepared;
    data_known = i.data_known;
    has_aggregate = i.has_aggregate;
    backed = λ h e.
        add_message-IsBacked q.config q.commit_container q.aggregated_commit h round op w
          (i.backed h e);
  }

  with_round_change-Inv : Inv (with_round_change q op round w)
  with_round_change-Inv = record {
    prepare_votes = i.prepare_votes;
    commit_votes = i.commit_votes;
    round_change_votes =
        add_message-Holds q.config q.round_change_container round op w own member
          i.round_change_votes;
    prepared = i.prepared;
    data_known = i.data_known;
    has_aggregate = i.has_aggregate;
    backed = i.backed;
  }

  pub received_round_change-Inv : Inv (received_round_change env q op round w).1
  unfolding set_round
  received_round_change-Inv = elim (received_round_change_paths env q op round w) [
    | inl e ↦ rw e i
    | inr e ↦ rw e (elim (count_round_change_paths env q op round w) [
      | inl e' ↦ rw e' with_round_change-Inv
      | inr (inl e') ↦ rw e' (Extends-Inv (start_round-Extends env _) with_round_change-Inv)
      | inr (inr e') ↦
          rw e' (join_round-Inv env (with_round_change q op round w) _ with_round_change-Inv)
    ])
  ]
