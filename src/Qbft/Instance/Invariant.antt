-- ===== src/Qbft/Instance/Invariant.antt =====
-- The invariant of an instance: what holds of every state that the handlers of
-- anchor/common/qbft/src/lib.rs reach.
use anchor.Base.{
  ℕ, ◌≤◌, ◌≡◌, refl, sym, ◌∙◌, ◌⊎◌, inl, inr, true, List, [], ◌∷◌, ◌++◌, Option, some, arith, ◌==◌,
  length, is_some, Bool-cases,
}
use native.Mathlib.Nat.{le_trans}
use anchor.Base.Maps.{lookup}
use anchor.Base.Sets.{contains}
use anchor.Ssv.Round.{Round}
use anchor.Ssv.Consensus.{Hash256, QbftData}
use anchor.Ssv.Message.{Bytes, SignedSsvMessage}
use anchor.Qbft.Types.{Completed, success, WrappedQbftMessage}
use anchor.Qbft.Config.{Config, config_quorum_size}
use anchor.Qbft.Container
use anchor.Qbft.Container.{MessageContainer, add_message, get_messages_for_round}
use anchor.Qbft.Container.Quorum.{count_root}
use anchor.Qbft.Container.Invariant.{
  quorum_size-add_message, senders, add_message-known, messages-add_message,
}
use anchor.Qbft.Tally.{IsTally, new-IsTally, add_message-IsTally}
use anchor.Qbft.Instance.{Qbft, unique_operators}
use anchor.Qbft.Instance.Frame.{Extends, start_round-Extends}
use anchor.Qbft.Instance.Rounds
use anchor.Qbft.Instance.Rounds.{initial, start_round}

-- A message that a quorum of distinct members of the committee signed.
abbrev pub IsQuorumSigned : Config → SignedSsvMessage → Type 0
IsQuorumSigned c m = config_quorum_size c ≤ length (unique_operators c.committee_members (m ∷ []))

-- What a decision for h rests on: a quorum of commits for h in one round, or an aggregated commit
-- with a quorum of signers.
abbrev pub IsBacked : Config → MessageContainer → Option SignedSsvMessage → Hash256 → Type 0
IsBacked config commits aggregate h =
    ((r : Round) × (config_quorum_size config ≤ count_root h (get_messages_for_round commits r)))
    ⊎ ((m : SignedSsvMessage) × (aggregate ≡ some m) × IsQuorumSigned config m)

-- A container of an instance with this configuration.
pub record Holds (c : Config) (m : MessageContainer) : Type 0 where
  pub tally : IsTally c.committee_members m
  pub quorum : m.quorum_size ≡ config_quorum_size c

-- Each vote is a member's; a prepared value has a quorum of prepares in its round; a decided value
-- has its data and an aggregated commit. The parameters are the fields of the state that count.
pub record InvOf {D : Type 0} (config : Config) (prepares commits round_changes : MessageContainer)
    (prepared_value : Option Hash256) (prepared_round : Option Round)
    (completed : Option (Completed Hash256)) (aggregate : Option SignedSsvMessage)
    (seen_data : List (Hash256 × D)) : Type 0 where
  pub prepare_votes : Holds config prepares
  pub commit_votes : Holds config commits
  pub round_change_votes : Holds config round_changes
  pub prepared :
      (v : Hash256) (r : Round)
      → prepared_value ≡ some v
      → prepared_round ≡ some r
      → config_quorum_size config ≤ count_root v (get_messages_for_round prepares r)
  pub data_known :
      (h : Hash256) → completed ≡ some (success h) → is_some (lookup h seen_data) ≡ true
  pub has_aggregate : (h : Hash256) → completed ≡ some (success h) → is_some aggregate ≡ true
  pub backed : (h : Hash256) → completed ≡ some (success h) → IsBacked config commits aggregate h

abbrev pub Inv : {D : Type 0} → Qbft D → Type 0
Inv q =
    InvOf q.config q.prepare_container q.commit_container q.round_change_container
      q.last_prepared_value q.last_prepared_round q.completed q.aggregated_commit q.seen_data

new-Holds : (c : Config) → Holds c (Container.new (config_quorum_size c))
unfolding Container.new
new-Holds c = record {
  tally = new-IsTally c.committee_members (config_quorum_size c);
  quorum = refl;
}

-- A vote of a member goes into a container.
pub add_message-Holds :
    (c : Config) (m : MessageContainer) (round : Round) (sender : ℕ) (w : WrappedQbftMessage)
    → w.signed_message.operator_ids ≡ sender ∷ []
    → contains c.committee_members sender ≡ true
    → Holds c m
    → Holds c (add_message m round sender w).0
add_message-Holds c m round sender w own member h = record {
  tally = add_message-IsTally c.committee_members m round sender w own member h.tally;
  quorum = quorum_size-add_message m round sender w ∙ h.quorum;
}

count_root-snoc :
    (v : Hash256) (ms : List WrappedQbftMessage) (w : WrappedQbftMessage)
    → count_root v ms ≤ count_root v (ms ++ w ∷ [])
count_root-snoc v [] w = omega arith
count_root-snoc v (m ∷ ms) w = ground (arith, count_root-snoc v ms w)

-- No vote is lost.
pub count_root-add_message :
    (c : MessageContainer) (round : Round) (sender : ℕ) (w : WrappedQbftMessage) (v : Hash256)
    (r : Round)
    → count_root v (get_messages_for_round c r)
      ≤ count_root v (get_messages_for_round (add_message c round sender w).0 r)
count_root-add_message c round sender w v r =
    elim (Bool-cases (contains (senders c round) sender)) [
      | inl known ↦ rw (add_message-known c round sender w known) (omega arith)
      | inr fresh ↦
          rw (messages-add_message c round sender w fresh r) (elim (Bool-cases (round == r)) [
            | inl here ↦ rw here (count_root-snoc v (get_messages_for_round c r) w)
            | inr there ↦ rw there (omega arith)
          ])
    ]

-- A decision keeps what it rests on when a commit arrives.
pub add_message-IsBacked :
    (config : Config) (c : MessageContainer) (aggregate : Option SignedSsvMessage) (h : Hash256)
    (round : Round) (sender : ℕ) (w : WrappedQbftMessage)
    → IsBacked config c aggregate h
    → IsBacked config (add_message c round sender w).0 aggregate h
add_message-IsBacked config c aggregate h round sender w b = elim b [
  | inl (r, many) ↦ inl (r, le_trans many (count_root-add_message c round sender w h r))
  | inr m ↦ inr m
]

module _ {D : Type 0} where
  -- The invariant is about what `Extends` keeps.
  pub Extends-Inv : {q q' : Qbft D} → Extends q q' → Inv q → Inv q'
  Extends-Inv e i = record {
    prepare_votes = rw (e.config, e.prepares) i.prepare_votes;
    commit_votes = rw (e.config, e.commits) i.commit_votes;
    round_change_votes = rw (e.config, e.round_changes) i.round_change_votes;
    prepared = λ v r hv hr.
        rw (e.config, e.prepares)
          (i.prepared v r (sym e.prepared_value ∙ hv) (sym e.prepared_round ∙ hr));
    data_known = λ h d. e.known h (i.data_known h (sym e.decision ∙ d));
    has_aggregate = λ h d. rw e.aggregate (i.has_aggregate h (sym e.decision ∙ d));
    backed = λ h d. rw (e.config, e.commits, e.aggregate) (i.backed h (sym e.decision ∙ d));
  }

  initial-Inv :
      (env : QbftData D) (config : Config) (start : D) (id : Bytes)
      → Inv (initial env config start id)
  unfolding initial
  initial-Inv env config start id = record {
    prepare_votes = new-Holds config;
    commit_votes = new-Holds config;
    round_change_votes = new-Holds config;
    prepared = λ v r hv hr. cc;
    data_known = λ h d. cc;
    has_aggregate = λ h d. cc;
    backed = λ h d. cc;
  }

  -- A new instance satisfies the invariant.
  pub new-Inv :
      (env : QbftData D) (config : Config) (start : D) (id : Bytes)
      → Inv (Rounds.new env config start id).1
  unfolding Rounds.new
  new-Inv env config start id =
      Extends-Inv (start_round-Extends env (initial env config start id))
        (initial-Inv env config start id)
