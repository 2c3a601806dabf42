-- ===== src/Qbft/Safety.antt =====
-- What no history of an instance of anchor/common/qbft/src/lib.rs breaks.
use anchor.Base.{
  ap, ℕ, ◌≤◌, ◌≡◌, refl, sym, ◌∙◌, inl, inr, true, false, List, [], ◌∷◌, some, arith, ◌==◌, length,
  keep, is_some, Option-cases, Bool-cases, ltb,
}
use anchor.Base.Sets.{contains}
use anchor.Ssv.Committee.{is_valid_committee_size, get_f}
use anchor.Ssv.Round.{Round, next}
use anchor.Ssv.Consensus.{Hash256, QbftData}
use anchor.Qbft.Types.{success, WrappedQbftMessage}
use anchor.Qbft.Config.{Config, config_quorum_size}
use anchor.Qbft.Container.{MessageContainer, get_messages_for_round}
use anchor.Qbft.Container.Quorum.{count_root}
use anchor.Qbft.Agreement.{voters, counted_agreement, voters-Distinct, voters-Subset, length-voters}
use anchor.Qbft.Tally.{IsTally, unique_operators-signers}
use anchor.Qbft.Instance.Outgoing.{get_round_change_prepare_justifications, prepares_for}
use anchor.Qbft.Instance.{Qbft, has_quorum, signed_messages}
use anchor.Qbft.Instance.Frame.{
  send_round_change-Extends, start_if_sent-Extends, start_round-Extends,
}
use anchor.Qbft.Instance.Invariant.{IsBacked}
use anchor.Qbft.Instance.Forward.{Forward, Forward-refl, Forward-trans, receive-Forward}
use anchor.Qbft.Instance.Rounds
use anchor.Qbft.Instance.Rounds.{end_round, initial}
use anchor.Qbft.Instance.Receive.{receive}
use anchor.Qbft.Instance.Receive
use anchor.Qbft.Reachable.{Reach, created, received, ended, Reach-Inv}

-- A quorum of votes that is counted passes the quorum test.
quorum_of_voters :
    {D : Type 0} (q : Qbft D) (c : MessageContainer) (r : Round) (v : Hash256)
    → IsTally q.config.committee_members c
    → config_quorum_size q.config ≤ count_root v (get_messages_for_round c r)
    → has_quorum q
        (signed_messages (keep (λ m. m.qbft_message.root == v) (get_messages_for_round c r)))
      ≡ true
unfolding has_quorum
quorum_of_voters q c r v t many =
    let committee = q.config.committee_members in
    rw
      (
        unique_operators-signers committee
            (keep (λ m. m.qbft_message.root == v) (get_messages_for_round c r))
            (voters-Distinct committee c t r v) (voters-Subset committee c t r v),
        length-voters committee c t r v,
      )
      (ground (arith, many))

module _ {D : Type 0} (env : QbftData D) where
  -- The messages are received one after the other.
  abbrev pub receive_all : Qbft D → List WrappedQbftMessage → Qbft D
  receive_all q [] = q
  receive_all q (w ∷ ws) = receive_all (receive env q w).1 ws

  receive_all-Forward : (q : Qbft D) (ws : List WrappedQbftMessage) → Forward q (receive_all q ws)
  receive_all-Forward q [] = Forward-refl q
  receive_all-Forward q (w ∷ ws) =
      Forward-trans (receive-Forward env q w) (receive_all-Forward (receive env q w).1 ws)

  -- Once an instance has decided h, any list of messages leaves the decision and the aggregated
  -- commit as they are.
  pub decision_is_final :
      (q : Qbft D) (ws : List WrappedQbftMessage) (h : Hash256)
      → q.completed ≡ some (success h)
      → ((receive_all q ws).completed ≡ some (success h))
        × ((receive_all q ws).aggregated_commit ≡ q.aggregated_commit)
  decision_is_final q ws h e = (receive_all-Forward q ws).decision h e

  -- Whatever is received, the round never goes down.
  pub round_is_monotone :
      (q : Qbft D) (ws : List WrappedQbftMessage)
      → q.current_round ≤ (receive_all q ws).current_round
  round_is_monotone q ws = (receive_all-Forward q ws).round

  end_round-config : (q : Qbft D) → (end_round env q).1.config ≡ q.config
  unfolding end_round
  end_round-config q = elim (Option-cases (next q.current_round)) [
    | inl e ↦ rw (e, end_round) refl
    | inr (r, e) ↦ elim (Bool-cases (ltb q.config.max_rounds r)) [
      | inl late ↦ rw (e, end_round, late) refl
      | inr more ↦
          rw (e, end_round, more)
            ((start_if_sent-Extends env _ _ (send_round_change-Extends env _ 0)).config)
    ]
  ]

  module _ (config : Config) where
    Reach-config : (q : Qbft D) → Reach env config q → q.config ≡ config
    unfolding initial Rounds.new
    Reach-config q (created start id) =
        (start_round-Extends env (initial env config start id)).config
    Reach-config q (received p w r a) = (receive-Forward env p w).config ∙ Reach-config p r
    Reach-config q (ended p r) = end_round-config p ∙ Reach-config p r

    -- A reachable instance that has decided h has the data of h to return, an aggregated commit,
    -- and a quorum: of commits for h in one round, or of members who signed the aggregated commit.
    pub decision-IsBacked :
        (q : Qbft D) (h : Hash256)
        → Reach env config q
        → q.completed ≡ some (success h)
        → is_some (Receive.completed env q) ≡ true
          × is_some q.aggregated_commit ≡ true
          × IsBacked config q.commit_container q.aggregated_commit h
    unfolding Receive.completed
    decision-IsBacked q h r e =
        let i = Reach-Inv env config q r in
        (
          ground (arith, i.data_known h e),
          i.has_aggregate h e,
          rw (sym (Reach-config q r)) (i.backed h e),
        )

    -- The commits of a reachable instance are votes of its committee.
    pub commit-IsTally :
        (q : Qbft D) → Reach env config q → IsTally config.committee_members q.commit_container
    commit-IsTally q r =
        rw (sym (ap (λ c. c.committee_members) (Reach-config q r)))
          ((Reach-Inv env config q r).commit_votes.tally)

    -- A reachable instance that has prepared a value has prepare messages that justify it: what it
    -- puts into its round changes passes the quorum test.
    pub prepared_is_justified :
        (q : Qbft D) (v : Hash256) (r : Round)
        → Reach env config q
        → q.last_prepared_value ≡ some v
        → q.last_prepared_round ≡ some r
        → has_quorum q (get_round_change_prepare_justifications q) ≡ true
    unfolding get_round_change_prepare_justifications prepares_for
    prepared_is_justified q v r reach ev er =
        let i = Reach-Inv env config q reach in
        rw (ev, er)
          (ground (
            arith,
            quorum_of_voters q q.prepare_container r v i.prepare_votes.tally (i.prepared v r ev er),
          ))

module _ {D : Type 0} (env : QbftData D) (config config' : Config)
    (same : config'.committee_members ≡ config.committee_members) where
  -- Two instances of one canonical committee, in any reachable states, count a quorum of commits
  -- in the same round, one for h and one for k. If at most f operators are faulty and every other
  -- operator's commits in the round are for one value wherever they are stored, then h = k.
  pub commit_agreement :
      (q q' : Qbft D) (faulty : List ℕ) (r : Round) (h k : Hash256)
      → Reach env config q
      → Reach env config' q'
      → is_valid_committee_size (length config.committee_members) ≡ true
      → length faulty ≤ get_f (length config.committee_members)
      → ((a : ℕ) (x y : Hash256)
          → contains faulty a ≡ false
          → contains (voters q.commit_container r x) a ≡ true
          → contains (voters q'.commit_container r y) a ≡ true
          → x ≡ y)
      → config_quorum_size config ≤ count_root h (get_messages_for_round q.commit_container r)
      → config_quorum_size config ≤ count_root k (get_messages_for_round q'.commit_container r)
      → h ≡ k
  unfolding config_quorum_size
  commit_agreement q q' faulty r h k reach reach' v few honest many many' =
      counted_agreement config.committee_members faulty q.commit_container q'.commit_container r h k
        v few honest (commit-IsTally env config q reach)
        (rw (sym same) (commit-IsTally env config' q' reach')) many many'
