-- ===== src/Qbft/Instance/Paths.antt =====
-- The ways through each handler of anchor/common/qbft/src/lib.rs, with the tests passed on them.
use anchor.Base.{
  ℕ, ◌+◌, ◌<◌, ◌≡◌, refl, ◌⊎◌, inl, inr, true, false, [], ◌∷◌, Option, none, some, arith, ◌==◌, ltb,
  length, Bool-cases, Option-cases,
}
use anchor.Base.Maps.{put}
use anchor.Base.Result.{Result, ok, err, panic}
use anchor.Ssv.Committee.{get_f}
use anchor.Ssv.Round.{Round}
use anchor.Ssv.Consensus.{Hash256, QbftData}
use anchor.Ssv.Message.{SignedSsvMessage}
use anchor.Qbft.Error.{QbftError}
use anchor.Qbft.Types.{WrappedQbftMessage, InstanceState, sent_round_change, round_change_consensus}
use anchor.Qbft.Container
use anchor.Qbft.Container.{add_message}
use anchor.Qbft.Instance.{
  Qbft, ValidData, MessageContent, finish, check_leader, has_quorum, is_success,
}
use anchor.Qbft.Instance.Validate.{validate_message}
use anchor.Qbft.Instance.Send.{send_commit, send_round_change}
use anchor.Qbft.Instance.Rounds.{set_round}
use anchor.Qbft.Instance.Propose.{accept_proposal, store_proposal, received_propose}
use anchor.Qbft.Instance.Prepare.{on_prepare_quorum, count_prepare, received_prepare}
use anchor.Qbft.Instance.Commit.{
  aggregate_commit_messages, complete_with, on_commit_quorum, count_commit, received_commit,
}
use anchor.Qbft.Instance.RoundChange.{join_round, count_round_change, received_round_change}
use anchor.Qbft.Instance.Decided.{adopt_decided, received_decided}
use anchor.Qbft.Instance.Receive.{dispatch, receive}

module _ {D : Type 0} (q : Qbft D) (op : ℕ) (round : Round) (w : WrappedQbftMessage) where
  -- The state with the message stored.
  abbrev pub with_proposal : Qbft D
  with_proposal = record q { propose_container = (add_message q.propose_container round op w).0 }

  abbrev pub with_prepare : Qbft D
  with_prepare = record q { prepare_container = (add_message q.prepare_container round op w).0 }

  abbrev pub with_commit : Qbft D
  with_commit = record q { commit_container = (add_message q.commit_container round op w).0 }

  abbrev pub with_round_change : Qbft D
  with_round_change = record q {
    round_change_container = (add_message q.round_change_container round op w).0;
  }

module _ {D : Type 0} where
  abbrev pub with_data : Qbft D → Hash256 → D → Qbft D
  with_data q hash value = record q { seen_data = put hash value q.seen_data }

module _ {D : Type 0} (env : QbftData D) (q : Qbft D) (op : ℕ) (round : Round)
    (w : WrappedQbftMessage) where
  pub received_propose_paths :
      (v : ValidData D)
      → let o = received_propose env q v op round w in
        (o.1 ≡ q) ⊎ ((check_leader q op round ≡ true) × (o ≡ store_proposal env q v op round w))
  unfolding received_propose
  received_propose_paths v = ground arith

  pub store_proposal_paths :
      (v : ValidData D)
      → let o = store_proposal env q v op round w in
        let stored = with_proposal (with_data q v.hash v.value) op round w in
        (o.1 ≡ stored) ⊎ (o ≡ accept_proposal env stored v round w)
  unfolding store_proposal
  store_proposal_paths v = ground arith

  pub received_prepare_paths :
      let o = received_prepare env q op round w in
      let stored = with_prepare q op round w in
      (o.1 ≡ q) ⊎ (o.1 ≡ stored) ⊎ ((q.completed ≡ none) × (o ≡ count_prepare env stored round w))
  unfolding received_prepare
  received_prepare_paths = ground arith

  pub count_prepare_paths :
      let o = count_prepare env q round w in
      (o.1 ≡ q)
      ⊎ ((hash : Hash256) × (Container.has_quorum q.prepare_container round ≡ some hash)
          × (o ≡ on_prepare_quorum env q hash q.state))
  unfolding count_prepare
  count_prepare_paths = elim (Option-cases (Container.has_quorum q.prepare_container round)) [
    | inl e ↦ inl (ground arith)
    | inr (hash, e) ↦ ground arith
  ]

  pub received_commit_paths :
      let o = received_commit env q op round w in
      (o.1 ≡ q)
      ⊎ ((q.completed ≡ none)
          × (q.proposal_accepted_for_current_round ≡ true)
          × (q.proposal_root ≡ some w.qbft_message.root)
          × (o ≡ count_commit env q op round w))
  unfolding received_commit
  received_commit_paths = ground arith

  pub count_commit_paths :
      let o = count_commit env q op round w in
      let stored = with_commit q op round w in
      (o.1 ≡ stored)
      ⊎ ((hash : Hash256) × (Container.has_quorum stored.commit_container round ≡ some hash)
          × (o ≡ on_commit_quorum env stored round hash q.state))
  unfolding count_commit
  count_commit_paths =
      elim (Option-cases (Container.has_quorum (with_commit q op round w).commit_container round)) [
        | inl e ↦ inl (ground arith)
        | inr (hash, e) ↦ ground arith
      ]

  pub received_round_change_paths :
      let o = received_round_change env q op round w in
      (o.1 ≡ q) ⊎ (o ≡ count_round_change env q op round w)
  unfolding received_round_change
  received_round_change_paths = ground arith

  pub count_round_change_paths :
      let o = count_round_change env q op round w in
      let stored = with_round_change q op round w in
      (o.1 ≡ stored)
      ⊎ (o ≡ set_round env (record stored { state = round_change_consensus }) round)
      ⊎ (o
          ≡ join_round env stored (
              Container.lowest_partial_quorum_above_round stored.round_change_container
                q.current_round
                (get_f (length q.config.committee_members) + 1)))
  unfolding count_round_change
  count_round_change_paths =
      elim (Bool-cases (Container.has_quorum_disregarding_root q.round_change_container round)) [
        | inl had ↦ inl (ground arith)
        | inr new ↦
            elim (Bool-cases (
              Container.has_quorum_disregarding_root
                (with_round_change q op round w).round_change_container round)) [
                  | inl reached ↦ inr (inl (ground arith))
                  | inr short ↦ inr (inr (ground arith))
                ]
      ]

module _ {D : Type 0} (env : QbftData D) (q : Qbft D) where
  pub on_prepare_quorum_paths :
      (hash : Hash256) (s : InstanceState)
      → let o = on_prepare_quorum env q hash s in
        (o.1 ≡ q)
        ⊎ ((s ≡ InstanceState.prepare hash)
            × (o
                ≡ send_commit env
                    (record q {
                      state = InstanceState.commit hash;
                      last_prepared_value = some hash;
                      last_prepared_round = some q.current_round;
                    })
                    hash))
  unfolding on_prepare_quorum
  on_prepare_quorum_paths hash (InstanceState.prepare root) = ground arith
  on_prepare_quorum_paths hash _ = inl refl

  pub on_commit_quorum_paths :
      (round : Round) (hash : Hash256) (s : InstanceState)
      → let o = on_commit_quorum env q round hash s in
        (o.1 ≡ q)
        ⊎ ((m : SignedSsvMessage) × ((s ≡ InstanceState.prepare hash)
              ⊎ (s ≡ InstanceState.commit hash))
            × (aggregate_commit_messages env q
                  (Container.get_quorum_of_messages q.commit_container round)
                ≡ ok m)
            × (o ≡ (ok tt, finish q hash m)))
  unfolding on_commit_quorum complete_with
  on_commit_quorum_paths round hash (InstanceState.prepare root) = ground arith
  on_commit_quorum_paths round hash (InstanceState.commit root) = ground arith
  on_commit_quorum_paths round hash _ = inl refl

  pub join_round_paths :
      (next : Option Round)
      → let o = join_round env q next in
        (o.1 ≡ q)
        ⊎ ((round : Round) × (q.current_round < round)
            × (o
                ≡ send_round_change env
                    (record q {
                      state = sent_round_change;
                      current_round = round;
                      proposal_accepted_for_current_round = false;
                    })
                    0))
  unfolding join_round
  join_round_paths none = inl refl
  join_round_paths (some round) = elim (Bool-cases (ltb q.current_round round)) [
    | inl ahead ↦ inr (round, ground arith, rw ahead refl)
    | inr behind ↦ inl (ground arith)
  ]

  pub received_decided_paths :
      (w : WrappedQbftMessage)
      → let o = received_decided env q w in
        (o.1 ≡ q)
        ⊎ ((value : D) × (has_quorum q (w.signed_message ∷ []) ≡ true)
            × (is_success q.completed ≡ false)
            × (env.from_ssz_bytes w.signed_message.full_data ≡ some value)
            × (env.validate value q.start_data ≡ true)
            × (o ≡ (
              ok tt,
              finish (with_data q w.qbft_message.root value) w.qbft_message.root w.signed_message,
            )))
  unfolding received_decided adopt_decided
  received_decided_paths w = elim (Option-cases (env.from_ssz_bytes w.signed_message.full_data)) [
    | inl e ↦ inl (ground arith)
    | inr (value, e) ↦ ground arith
  ]

  -- An accepted message is dispatched; its round is not 0.
  pub receive_paths :
      (w : WrappedQbftMessage)
      → let o = receive env q w in
        (o.1 ≡ q)
        ⊎ ((content : MessageContent D) × (signer : ℕ) × (validate_message env q w
              ≡ ok (content, signer))
            × (0 < w.qbft_message.round)
            × (o ≡ dispatch env q w content signer w.qbft_message.round))
  unfolding receive
  receive_paths w = go (validate_message env q w) refl
    where
      go :
          (r : Result QbftError (MessageContent D × ℕ))
          → validate_message env q w ≡ r
          → let o = receive env q w in
            (o.1 ≡ q)
            ⊎ ((content : MessageContent D) × (signer : ℕ) × (validate_message env q w
                  ≡ ok (content, signer))
                × (0 < w.qbft_message.round)
                × (o ≡ dispatch env q w content signer w.qbft_message.round))
      go (ok (content, signer)) e = elim (Bool-cases (w.qbft_message.round == 0)) [
        | inl z ↦ inl (ground arith)
        | inr n ↦ inr (content, signer, e, ground arith, ground arith)
      ]
      go (err x) e = inl (ground arith)
      go panic e = inl (ground arith)
