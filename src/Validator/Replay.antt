-- ===== src/Validator/Replay.antt =====
-- A message of one signer is accepted once: anchor/message_validator/src/consensus_message.rs and
-- duty_state.rs.
use mathlib.Core.Path.{subst}
use anchor.Base.{
  ℕ, ◌≤◌, ◌<◌, ◌≡◌, refl, sym, ap, ◌∙◌, inl, inr, List, [], ◌∷◌, some, arith, length, ==_refl,
}
use anchor.Base.Result.{ok}
use anchor.Ssv.Message.{Bytes, SignedSsvMessage}
use anchor.Ssv.Consensus.{
  Hash256, QbftMessage, QbftMessageType, proposal, prepare, commit, round_change,
}
use anchor.Validator.Counts.{
  MessageCounts, validate_consensus_message_limits, record_consensus_message,
}
use anchor.Validator.SignerState.{SignerState, update_signer, new_signer_state}
use anchor.Validator.DutyState.{
  DutyState, operator_state, get_signer_state, update_operator, open_signer_state,
  update_for_consensus_message,
}
use anchor.Validator.DutyState.Update.{updated, update_operator-Written, open_signer_state-cases}
use anchor.Validator.Context.{Foreign, DutiesProvider, ValidationContext}
use anchor.Validator.Consensus.{check_operator, validate_consensus_message}
use anchor.Validator.Admission.{check_consensus_message-ok, validate_consensus_message-ok}
use anchor.Validator.Unchanged.{Same, operator_state-set_operator, check_consensus_message-Same}
use anchor.Validator.Bounded.{Bounded, WellFormed, Same-WellFormed, new_signer_state-Bounded}
use anchor.Validator.Bounded.Consensus.{Small, check_operator-ok}
use anchor.Validator.Bounded.Preserved.{validate_qbft_logic-first}

-- A counter that went up leaves no room for another message of its type.
record_fills :
    (c : MessageCounts) (m : SignedSsvMessage) (t : QbftMessageType)
    → Small c
    → length m.operator_ids ≡ 1
    → ¬ (
        validate_consensus_message_limits (record_consensus_message c t (length m.operator_ids)) m t
        ≡ ok tt)
unfolding Small record_consensus_message validate_consensus_message_limits
record_fills c m proposal s one h = ground arith
record_fills c m prepare s one h = ground arith
record_fills c m commit s one h = ground arith
record_fills c m round_change s one h = ground arith

Bounded-Small : (s : SignerState) → Bounded s → Small s.message_counts
unfolding Small
Bounded-Small s b = (b.pre, b.proposed, b.prepared, b.committed, b.changed, b.post)

-- The entry after the update: of the message's round at least, its counter up.
record Counted (s : SignerState) (m : SignedSsvMessage) (q : QbftMessage) : Type 0 where
  pub level : q.round ≤ s.round
  pub full : ¬ (validate_consensus_message_limits s.message_counts m q.qbft_message_type ≡ ok tt)

update_signer-Counted :
    (sha256 : Bytes → Hash256) (s : SignerState) (m : SignedSsvMessage) (q : QbftMessage)
    → q.round ≤ s.round
    → Bounded s
    → length m.operator_ids ≡ 1
    → Counted (update_signer sha256 s m q) m q
unfolding update_signer
update_signer-Counted sha256 s m q level b one = record {
  level = level;
  full = record_fills s.message_counts m q.qbft_message_type (Bounded-Small s b) one;
}

updated-Counted :
    (sha256 : Bytes → Hash256) (d : DutyState) (signer : ℕ) (m : SignedSsvMessage) (q : QbftMessage)
    → WellFormed d
    → length m.operator_ids ≡ 1
    → Counted
        (update_signer sha256 (open_signer_state (operator_state d signer) q.height q.round).1 m q)
        m
        q
updated-Counted sha256 d signer m q w one =
    elim (open_signer_state-cases (operator_state d signer) q.height q.round) [
      | inl fresh ↦ rw fresh (
          update_signer-Counted sha256 (new_signer_state q.height q.round) m q (omega arith)
            (new_signer_state-Bounded q.height q.round) one)
      | inr (s, found, level, kept) ↦
          rw kept (update_signer-Counted sha256 s m q level (w.entries signer q.height s found) one)
    ]

-- The operator's state after the message of its one signer is recorded.
recorded-operator_state :
    (sha256 : Bytes → Hash256) (d : DutyState) (signer : ℕ) (signers : List ℕ)
    (m : SignedSsvMessage) (q : QbftMessage)
    → signers ≡ signer ∷ []
    → operator_state (update_for_consensus_message sha256 d m q signers) signer
      ≡ update_operator sha256 (operator_state d signer) m q q.height
unfolding update_for_consensus_message
recorded-operator_state sha256 d signer signers m q ids =
    let written = update_operator sha256 (operator_state d signer) m q q.height in
    rw ids (operator_state-set_operator d signer signer written ∙ rw (==_refl signer) refl)

-- The same message, in another context.
abbrev pub again : ValidationContext → ValidationContext → ValidationContext
again c later = record later { signed_ssv_message = c.signed_ssv_message }

-- A consensus message of one signer that was accepted is not accepted again: not in the state that
-- its acceptance left, whatever the time, the duties and the committee are then, as long as its
-- data still decode to the same message.
pub accepted_once :
    (foreign foreign' : Foreign) (duties duties' : DutiesProvider) (c later : ValidationContext)
    (d d' d'' : DutyState) (q q' : QbftMessage) (signer : ℕ)
    → WellFormed d
    → c.signed_ssv_message.operator_ids ≡ signer ∷ []
    → foreign'.decode_qbft c.signed_ssv_message.ssv_message.msg_data
      ≡ foreign.decode_qbft c.signed_ssv_message.ssv_message.msg_data
    → validate_consensus_message foreign duties c d ≡ (ok q, d')
    → ¬ (validate_consensus_message foreign' duties' (again c later) d' ≡ (ok q', d''))
accepted_once foreign foreign' duties duties' c later d d' d'' q q' signer w ids same_data h h' =
    let m = c.signed_ssv_message in
    let one : length m.operator_ids ≡ 1 = ap length ids in
    let (found, e, checked, left) = validate_consensus_message-ok foreign duties c d d' q h in
    let (found', e', checked', _) =
      validate_consensus_message-ok foreign' duties' (again c later) d' d'' q' h' in
    let (_, _, d₁, logic, _) =
      check_consensus_message-ok foreign' duties' (again c later) q' d' e' checked' in
    let decoded : some q' ≡ some q = sym found' ∙ same_data ∙ found in
    let same : q' ≡ q = cc in
    let w' : WellFormed e =
      Same-WellFormed d e
        (subst (Same d) (ap (λ o. o.1) checked) (check_consensus_message-Same foreign c q duties d))
        w in
    let o = operator_state e signer in
    let p : 0 < length o.state = rw (w'.rings signer) w'.places in
    let recorded : operator_state d' signer ≡ update_operator foreign.sha256 o m q q.height =
      ap (λ x. operator_state x signer) left
      ∙ recorded-operator_state foreign.sha256 e signer m.operator_ids m q ids in
    let entry : get_signer_state (operator_state d' signer) q.height
        ≡ some (updated foreign.sha256 o m q q.height p) =
      ap (λ x. get_signer_state x q.height) recorded
      ∙ (update_operator-Written foreign.sha256 o m q q.height p).here in
    let passed : check_operator foreign' m q signer (operator_state d' signer) ≡ ok tt =
      subst (λ x. check_operator foreign' m x signer (operator_state d' signer) ≡ ok tt) same
        (validate_qbft_logic-first foreign' (again c later) q' d' d₁ signer [] ids logic) in
    let counted = updated-Counted foreign.sha256 e signer m q w' one in
    let (above, room) =
      check_operator-ok foreign' m q signer (operator_state d' signer) _ one entry passed in
    let level = counted.level in counted.full (room (omega arith))
