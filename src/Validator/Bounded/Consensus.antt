-- ===== src/Validator/Bounded/Consensus.antt =====
-- Validation of consensus messages keeps the bounds of the state of duties
-- (anchor/message_validator/src/consensus_message.rs, duty_state.rs, message_counts.rs).
use anchor.Base.{
  ℕ, ◌≤◌, ◌<◌, ◌≡◌, refl, sym, ◌∙◌, inl, inr, true, not, ◌&&◌, List, [], ◌∷◌, some, arith, ◌==◌,
  ltb, length, Bool-cases, ==_refl, is_empty,
}
use anchor.Base.Result.{ok, guard-eq-ok}
use anchor.Ssv.Message.{Bytes, SignedSsvMessage}
use anchor.Ssv.Consensus.{
  Hash256, QbftMessage, QbftMessageType, proposal, prepare, commit, round_change, is_commit,
}
use anchor.Validator.Counts.{
  MessageCounts, validate_consensus_message_limits, record_consensus_message,
}
use anchor.Validator.SignerState.{SignerState, new_signer_state, update_signer}
use anchor.Validator.DutyState.{
  OperatorState, DutyState, operator_state, set_operator, get_signer_state, update_operator,
  update_for_consensus_message,
}
use anchor.Validator.DutyState.Update.{
  Written-All, updated, update_operator-Written, open_signer_state-cases,
}
use anchor.Validator.Context.{Foreign}
use anchor.Validator.Consensus.{differs, check_single, check_signer_state, check_operator}
use anchor.Validator.Bounded.{
  Bounded, WellFormed, new_signer_state-Bounded, set_operator-WellFormed,
}

-- Counts that are at most 1 stay so, as no counter that is 1 goes up.
abbrev pub Fits : MessageCounts → SignedSsvMessage → QbftMessageType → Type 0
Fits c m t = validate_consensus_message_limits c m t ≡ ok tt

unfoldable pub Small : MessageCounts → Type 0
Small c =
    (c.pre_consensus ≤ 1)
    × (c.proposals ≤ 1)
    × (c.prepares ≤ 1)
    × (c.commits ≤ 1)
    × (c.round_changes ≤ 1)
    × (c.post_consensuses ≤ 1)

record-Small :
    (c : MessageCounts) (m : SignedSsvMessage) (t : QbftMessageType)
    → Fits c m t
    → Small c
    → Small (record_consensus_message c t (length m.operator_ids))
unfolding record_consensus_message validate_consensus_message_limits Small
record-Small c m proposal f s = ground arith
record-Small c m prepare f s = ground arith
record-Small c m commit f s = elim (Bool-cases (length m.operator_ids == 1)) [
  | inl one ↦ rw one (ground (arith, one))
  | inr several ↦ rw several s
]
record-Small c m round_change f s = ground arith

record-Bounded :
    (sha256 : Bytes → Hash256) (s : SignerState) (m : SignedSsvMessage) (q : QbftMessage)
    → Bounded s
    → Fits s.message_counts m q.qbft_message_type
    → Bounded (update_signer sha256 s m q)
unfolding update_signer Small
record-Bounded sha256 s m q b f =
    let (pre, proposed, prepared, committed, changed, post) =
      record-Small s.message_counts m q.qbft_message_type f
        (b.pre, b.proposed, b.prepared, b.committed, b.changed, b.post) in
    record {
      pre = pre;
      proposed = proposed;
      prepared = prepared;
      committed = committed;
      changed = changed;
      post = post;
      preferred = b.preferred;
      authorised = b.authorised;
    }

new-Fits :
    (slot round : ℕ) (m : SignedSsvMessage) (t : QbftMessageType)
    → Fits (new_signer_state slot round).message_counts m t
unfolding validate_consensus_message_limits
new-Fits slot round m proposal = refl
new-Fits slot round m prepare = refl
new-Fits slot round m commit = ground arith
new-Fits slot round m round_change = refl

pub several-Fits :
    (c : MessageCounts) (m : SignedSsvMessage) (t : QbftMessageType)
    → is_commit t ≡ true
    → ¬ (length m.operator_ids ≡ 1)
    → Fits c m t
unfolding validate_consensus_message_limits
several-Fits c m proposal k n = cc
several-Fits c m prepare k n = cc
several-Fits c m commit k n = ground (arith, n)
several-Fits c m round_change k n = cc

-- The message is counted where an entry of the slot at no lower round has room for it.
unfoldable pub HasRoom : OperatorState → SignedSsvMessage → QbftMessage → Type 0
HasRoom o m q =
    (s : SignerState)
    → get_signer_state o q.height ≡ some s
    → q.round ≤ s.round
    → Fits s.message_counts m q.qbft_message_type

pub update_one-WellFormed :
    (sha256 : Bytes → Hash256) (d : DutyState) (signer : ℕ) (m : SignedSsvMessage) (q : QbftMessage)
    → WellFormed d
    → HasRoom (operator_state d signer) m q
    → WellFormed
        (set_operator d signer (update_operator sha256 (operator_state d signer) m q q.height))
unfolding HasRoom
update_one-WellFormed sha256 d signer m q w room =
    let o = operator_state d signer in
    let p : 0 < length o.state = rw (w.rings signer) w.places in
    let written = update_operator-Written sha256 o m q q.height p in
    let now : Bounded (updated sha256 o m q q.height p) =
      elim (open_signer_state-cases o q.height q.round) [
        | inl fresh ↦ rw fresh (
            record-Bounded sha256 (new_signer_state q.height q.round) m q
              (new_signer_state-Bounded q.height q.round) (new-Fits q.height q.round m _))
        | inr (s, found, level, kept) ↦
            rw kept
              (record-Bounded sha256 s m q (w.entries signer q.height s found) (room s found level))
      ] in
    set_operator-WellFormed d signer (update_operator sha256 o m q q.height) w
      (written.places ∙ w.rings signer)
      (Written-All o (update_operator sha256 o m q q.height) q.height _ Bounded written now
        (w.entries signer))

pub update_several-WellFormed :
    (sha256 : Bytes → Hash256) (d : DutyState) (m : SignedSsvMessage) (q : QbftMessage)
    (signers : List ℕ)
    → WellFormed d
    → ((c : MessageCounts) → Fits c m q.qbft_message_type)
    → WellFormed (update_for_consensus_message sha256 d m q signers)
unfolding update_for_consensus_message HasRoom
update_several-WellFormed sha256 d m q [] w f = w
update_several-WellFormed sha256 d m q (signer ∷ signers) w f =
    update_several-WellFormed sha256
      (set_operator d signer (update_operator sha256 (operator_state d signer) m q q.height)) m q
      signers (update_one-WellFormed sha256 d signer m q w (λ s _ _. f s.message_counts)) f

check_single-ok :
    (m : SignedSsvMessage) (q : QbftMessage) (s : SignerState)
    → check_single m q s ≡ ok tt
    → (s.round ≤ q.round) × (q.round ≡ s.round → Fits s.message_counts m q.qbft_message_type)
unfolding check_single
check_single-ok m q s h =
    let (level, rest) = guard-eq-ok (not (ltb q.round s.round)) _ _ h in
    (
      ground (arith, level),
      λ e.
          let same : (q.round == s.round) ≡ true = rw e (==_refl s.round) in
          let (_, limits) =
            guard-eq-ok (not (not (is_empty m.full_data) && differs s.proposal_hash q.root)) _ _
              (rw same at rest) in
          limits,
    )

read_state :
    (foreign : Foreign) (m : SignedSsvMessage) (q : QbftMessage) (signer : ℕ) (o : OperatorState)
    (s : SignerState)
    → get_signer_state o q.height ≡ some s
    → check_operator foreign m q signer o ≡ check_signer_state foreign m q s
unfolding check_operator
read_state foreign m q signer o s found = rw (check_operator, found) refl

-- What the tests of a single signer say of the entry of its slot.
pub check_operator-ok :
    (foreign : Foreign) (m : SignedSsvMessage) (q : QbftMessage) (signer : ℕ) (o : OperatorState)
    (s : SignerState)
    → length m.operator_ids ≡ 1
    → get_signer_state o q.height ≡ some s
    → check_operator foreign m q signer o ≡ ok tt
    → (s.round ≤ q.round) × (q.round ≡ s.round → Fits s.message_counts m q.qbft_message_type)
unfolding check_signer_state
check_operator-ok foreign m q signer o s one found h =
    let single : (length m.operator_ids == 1) ≡ true = rw one refl in
    let passed : check_signer_state foreign m q s ≡ ok tt =
      sym (read_state foreign m q signer o s found) ∙ h in
    check_single-ok m q s (rw single at passed)

-- The test of a single signer makes room.
pub check_operator-HasRoom :
    (foreign : Foreign) (m : SignedSsvMessage) (q : QbftMessage) (signer : ℕ) (o : OperatorState)
    → length m.operator_ids ≡ 1
    → check_operator foreign m q signer o ≡ ok tt
    → HasRoom o m q
unfolding HasRoom
check_operator-HasRoom foreign m q signer o one h s found level =
    let (above, limits) = check_operator-ok foreign m q signer o s one found h in
    limits (omega arith)
