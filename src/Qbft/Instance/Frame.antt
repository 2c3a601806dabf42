-- ===== src/Qbft/Instance/Frame.antt =====
-- What the sends and the starts of rounds of anchor/common/qbft/src/lib.rs leave alone.
use anchor.Base.{◌≡◌, refl, ◌∙◌, true, false, arith, is_some, Bool-cases, inl, inr}
use anchor.Base.Maps.{lookup, put, lookup-put}
use anchor.Base.Result.{Result, ok, err, panic}
use anchor.Ssv.Consensus.{Hash256, QbftData}
use anchor.Qbft.Error.{QbftError}
use anchor.Qbft.Types.{
  UnsignedWrappedQbftMessage, InstanceState, awaiting_proposal, is_sent_round_change,
}
use anchor.Qbft.Instance.{
  Qbft, Outcome, on_ok, check_leader, RcJustificationOutcome, highest_prepared, no_prepared,
  prepared_exists_but_data_missing,
}
use anchor.Qbft.Instance.Justify.{justify_round_change_quorum}
use anchor.Qbft.Instance.Outgoing.{new_unsigned_message}
use anchor.Qbft.Instance.Send.{
  send, get_prepare_justifications, send_proposal, send_prepare, send_commit, send_round_change,
}
use anchor.Qbft.Instance.Rounds.{logged, lead, start_round, start_if_sent}

-- The later state has the votes, the prepared value and the decision of the earlier one, and all
-- of its data.
pub record Extends {D : Type 0} (q q' : Qbft D) : Type 0 where
  pub config : q'.config ≡ q.config
  pub height : q'.instance_height ≡ q.instance_height
  pub proposals : q'.propose_container ≡ q.propose_container
  pub prepares : q'.prepare_container ≡ q.prepare_container
  pub commits : q'.commit_container ≡ q.commit_container
  pub round_changes : q'.round_change_container ≡ q.round_change_container
  pub prepared_value : q'.last_prepared_value ≡ q.last_prepared_value
  pub prepared_round : q'.last_prepared_round ≡ q.last_prepared_round
  pub decision : q'.completed ≡ q.completed
  pub aggregate : q'.aggregated_commit ≡ q.aggregated_commit
  pub round : q'.current_round ≡ q.current_round
  pub known :
      (h : Hash256) → is_some (lookup h q.seen_data) ≡ true → is_some (lookup h q'.seen_data) ≡ true

module _ {D : Type 0} where
  pub Extends-refl : (q : Qbft D) → Extends q q
  Extends-refl q = record {
    config = refl;
    height = refl;
    proposals = refl;
    prepares = refl;
    commits = refl;
    round_changes = refl;
    prepared_value = refl;
    prepared_round = refl;
    decision = refl;
    aggregate = refl;
    round = refl;
    known = λ h e. e;
  }

  pub Extends-trans : {q r s : Qbft D} → Extends q r → Extends r s → Extends q s
  Extends-trans e f = record {
    config = f.config ∙ e.config;
    height = f.height ∙ e.height;
    proposals = f.proposals ∙ e.proposals;
    prepares = f.prepares ∙ e.prepares;
    commits = f.commits ∙ e.commits;
    round_changes = f.round_changes ∙ e.round_changes;
    prepared_value = f.prepared_value ∙ e.prepared_value;
    prepared_round = f.prepared_round ∙ e.prepared_round;
    decision = f.decision ∙ e.decision;
    aggregate = f.aggregate ∙ e.aggregate;
    round = f.round ∙ e.round;
    known = λ h i. f.known h (e.known h i);
  }

  pub Extends-put :
      (q : Qbft D) (k : Hash256) (v : D) → Extends q (record q { seen_data = put k v q.seen_data })
  Extends-put q k v = record {
    config = refl;
    height = refl;
    proposals = refl;
    prepares = refl;
    commits = refl;
    round_changes = refl;
    prepared_value = refl;
    prepared_round = refl;
    decision = refl;
    aggregate = refl;
    round = refl;
    known = λ h e. ground (arith, lookup-put k h v q.seen_data);
  }

  Extends-sent : (q : Qbft D) (m : UnsignedWrappedQbftMessage) → Extends q (send q m)
  Extends-sent q m = record {
    config = refl;
    height = refl;
    proposals = refl;
    prepares = refl;
    commits = refl;
    round_changes = refl;
    prepared_value = refl;
    prepared_round = refl;
    decision = refl;
    aggregate = refl;
    round = refl;
    known = λ h e. e;
  }

  -- The proposal is forgotten and a message is sent.
  Extends-forget :
      (q : Qbft D) (m : UnsignedWrappedQbftMessage)
      → Extends q (send (record q { proposal_accepted_for_current_round = false }) m)
  Extends-forget q m = record {
    config = refl;
    height = refl;
    proposals = refl;
    prepares = refl;
    commits = refl;
    round_changes = refl;
    prepared_value = refl;
    prepared_round = refl;
    decision = refl;
    aggregate = refl;
    round = refl;
    known = λ h e. e;
  }

  Extends-state : (q : Qbft D) (s : InstanceState) → Extends q (record q { state = s })
  Extends-state q s = record {
    config = refl;
    height = refl;
    proposals = refl;
    prepares = refl;
    commits = refl;
    round_changes = refl;
    prepared_value = refl;
    prepared_round = refl;
    decision = refl;
    aggregate = refl;
    round = refl;
    known = λ h e. e;
  }

  Extends-on_ok {ℓ} :
      {A : Type ℓ} (p q : Qbft D) (r : Result QbftError A) (f : A → Outcome D)
      → Extends p q
      → ((a : A) → Extends p (f a).1)
      → Extends p (on_ok r q f).1
  Extends-on_ok p q (ok a) f e h = h a
  Extends-on_ok p q (err x) f e h = e
  Extends-on_ok p q panic f e h = e

  Extends-logged : (p : Qbft D) (o : Outcome D) → Extends p o.1 → Extends p (logged o).1
  Extends-logged p (ok _, q) e = e
  Extends-logged p (err _, q) e = e
  Extends-logged p (panic, q) e = e

module _ {D : Type 0} (env : QbftData D) where
  pub send_proposal-Extends :
      (q : Qbft D) (hash : Hash256) (value : D) → Extends q (send_proposal env q hash value).1
  unfolding send_proposal
  send_proposal-Extends q hash value =
      Extends-on_ok q _ (get_prepare_justifications env _) _ (Extends-put q hash value) λ p.
        Extends-on_ok q _ (new_unsigned_message env _ _ _ _ _) _ (Extends-put q hash value)
          λ m. Extends-trans (Extends-put q hash value) (Extends-sent _ m)

  pub send_prepare-Extends : (q : Qbft D) (hash : Hash256) → Extends q (send_prepare env q hash).1
  unfolding send_prepare
  send_prepare-Extends q hash = elim (Bool-cases (is_some (lookup hash q.seen_data))) [
    | inr missing ↦ rw missing (Extends-refl q)
    | inl found ↦ rw found (
        Extends-on_ok q q (new_unsigned_message env q _ _ _ _) _ (Extends-refl q)
          (λ m. Extends-sent q m))
  ]

  pub send_commit-Extends : (q : Qbft D) (hash : Hash256) → Extends q (send_commit env q hash).1
  unfolding send_commit
  send_commit-Extends q hash =
      Extends-on_ok q q (new_unsigned_message env q _ _ _ _) _ (Extends-refl q)
        λ m. Extends-sent q m

  pub send_round_change-Extends :
      (q : Qbft D) (hash : Hash256) → Extends q (send_round_change env q hash).1
  unfolding send_round_change
  send_round_change-Extends q hash =
      Extends-on_ok q q (new_unsigned_message env q _ _ _ _) _ (Extends-refl q)
        λ m. Extends-forget q m

  lead-Extends : (q : Qbft D) → Extends q (lead env q).1
  unfolding lead
  lead-Extends q = go (justify_round_change_quorum env q) refl
    where
      go :
          (o : RcJustificationOutcome D)
          → justify_round_change_quorum env q ≡ o
          → Extends q (lead env q).1
      go (highest_prepared v) e =
          rw (e, lead) (Extends-logged q _ (send_proposal-Extends q v.hash v.value))
      go no_prepared e =
          rw (e, lead)
            (Extends-logged q _
              (send_proposal-Extends q q.valid_start_data.hash q.valid_start_data.value))
      go (prepared_exists_but_data_missing _) e = rw (e, lead) (Extends-refl q)

  pub start_round-Extends : (q : Qbft D) → Extends q (start_round env q).1
  unfolding start_round
  start_round-Extends q = elim (Bool-cases (is_sent_round_change q.state)) [
    | inl waits ↦ rw waits (Extends-refl q)
    | inr starts ↦
        let q' = record q { state = awaiting_proposal } in
        elim (Bool-cases (check_leader q' q.config.operator_id q.current_round)) [
          | inl leads ↦ rw (starts, leads) (Extends-trans (Extends-state q _) (lead-Extends q'))
          | inr follows ↦ rw (starts, follows) (Extends-state q _)
        ]
  ]

  pub start_if_sent-Extends :
      (p : Qbft D) (o : Outcome D) → Extends p o.1 → Extends p (start_if_sent env o).1
  unfolding start_if_sent
  start_if_sent-Extends p (ok _, q) e = Extends-trans e (start_round-Extends q)
  start_if_sent-Extends p (err _, q) e = e
  start_if_sent-Extends p (panic, q) e = e
