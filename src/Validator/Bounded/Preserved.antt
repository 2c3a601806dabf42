-- ===== src/Validator/Bounded/Preserved.antt =====
-- `validate_consensus_message` of anchor/message_validator/src/consensus_message.rs, on every
-- outcome, keeps the state of duties well-formed.
use mathlib.Core.Path.{subst}
use anchor.Base.{
  ℕ, suc, ◌≡◌, refl, sym, ap, inl, inr, true, List, [], ◌∷◌, arith, length, Option-cases,
}
use anchor.Base.Result.{Result, ok, err, panic, >>=-eq-ok}
use anchor.Ssv.Committee.{quorum_size}
use anchor.Ssv.Consensus.{QbftMessage, is_commit}
use anchor.Validator.Failure.{ValidationFailure}
use anchor.Validator.DutyState.{
  OperatorState, DutyState, operator_state, get_or_create_operator, update_for_consensus_message,
}
use anchor.Validator.Context.{Foreign, DutiesProvider, ValidationContext}
use anchor.Validator.Justifications.{check_signers, validate_consensus_message_semantics}
use anchor.Validator.Consensus.{
  Outcome, continue_with, check_operator, for_each_signer, check_proposal_leader,
  validate_qbft_logic, check_consensus_message, validate_consensus_message,
}
use anchor.Validator.Admission.{continue_with-ok, check_signers-ok, check_consensus_message-ok}
use anchor.Validator.Unchanged.{Same, check_consensus_message-Same}
use anchor.Validator.Bounded.{WellFormed, Same-WellFormed}
use anchor.Validator.Bounded.Consensus.{
  HasRoom, several-Fits, update_one-WellFormed, update_several-WellFormed, check_operator-HasRoom,
}

-- The first signer passed its test, in the state before.
for_each_signer-first :
    (test : ℕ → OperatorState → Result ValidationFailure (Unit {0})) (signer : ℕ)
    (signers all : List ℕ) (d e : DutyState)
    → all ≡ signer ∷ signers
    → for_each_signer test all d ≡ (ok tt, e)
    → test signer (operator_state d signer) ≡ ok tt
unfolding for_each_signer
for_each_signer-first test signer signers [] d e ids h = cc
for_each_signer-first test signer signers (x ∷ xs) d e ids h =
    let (_, _, first, _) =
      continue_with-ok (test x (operator_state d x), get_or_create_operator d x)
        (λ _ made. for_each_signer test xs made) tt e h in
    let same : x ≡ signer = cc in
    subst (λ y. test y (operator_state d y) ≡ ok tt) same (ap (λ o. o.0) first)

pub validate_qbft_logic-first :
    (foreign : Foreign) (c : ValidationContext) (q : QbftMessage) (d e : DutyState) (signer : ℕ)
    (signers : List ℕ)
    → c.signed_ssv_message.operator_ids ≡ signer ∷ signers
    → validate_qbft_logic foreign c q d ≡ (ok tt, e)
    → check_operator foreign c.signed_ssv_message q signer (operator_state d signer) ≡ ok tt
unfolding validate_qbft_logic
validate_qbft_logic-first foreign c q d e signer signers ids h =
    let (_, d₁, leader, h₁) = continue_with-ok (check_proposal_leader c q, d) _ tt e h in
    let test = check_operator foreign c.signed_ssv_message q in
    let (_, d₂, each, _) =
      continue_with-ok (for_each_signer test c.signed_ssv_message.operator_ids d₁) _ tt e h₁ in
    let start : d₁ ≡ d = sym (ap (λ o. o.1) leader) in
    subst (λ x. test signer (operator_state x signer) ≡ ok tt) start
      (for_each_signer-first test signer signers c.signed_ssv_message.operator_ids d₁ d₂ ids each)

module _ (foreign : Foreign) (duties : DutiesProvider) (c : ValidationContext)
    (q : QbftMessage) where
  recorded-by-signers :
      (d d₁ e : DutyState) (signers : List ℕ)
      → c.signed_ssv_message.operator_ids ≡ signers
      → WellFormed e
      → check_signers c.signed_ssv_message q
          (quorum_size (length c.committee_info.committee_members))
        ≡ ok tt
      → Same d e
      → validate_qbft_logic foreign c q d ≡ (ok tt, d₁)
      → WellFormed (update_for_consensus_message foreign.sha256 e c.signed_ssv_message q signers)
  unfolding update_for_consensus_message
  recorded-by-signers d d₁ e [] ids w many same logic = w
  recorded-by-signers d d₁ e (x ∷ []) ids w many same logic =
      let m = c.signed_ssv_message in
      let passed = validate_qbft_logic-first foreign c q d d₁ x [] ids logic in
      let room = check_operator-HasRoom foreign m q x (operator_state d x) (ap length ids) passed in
      update_one-WellFormed foreign.sha256 e x m q w
        (subst (λ o. HasRoom o m q) (sym (same.states x)) room)
  recorded-by-signers d d₁ e (x ∷ y ∷ signers) ids w many same logic =
      let m = c.signed_ssv_message in
      let size : length m.operator_ids ≡ suc (suc (length signers)) = ap length ids in
      let is_decided : is_commit q.qbft_message_type ≡ true =
        elim (check_signers-ok m q _ (omega arith) many) [
          | inl one ↦ absurd (omega arith)
          | inr (commit, _) ↦ commit
        ] in
      update_several-WellFormed foreign.sha256 e m q (x ∷ y ∷ signers) w
        (λ counts. several-Fits counts m q.qbft_message_type is_decided (λ one. omega arith))

  -- The message that passed the checks is recorded within the bounds.
  recorded-WellFormed :
      (d e : DutyState)
      → WellFormed d
      → check_consensus_message foreign duties c q d ≡ (ok tt, e)
      → WellFormed (
          update_for_consensus_message foreign.sha256 e c.signed_ssv_message q
            c.signed_ssv_message.operator_ids)
  unfolding validate_consensus_message_semantics
  recorded-WellFormed d e w h =
      let m = c.signed_ssv_message in
      let same : Same d e =
        subst (Same d) (ap (λ o. o.1) h) (check_consensus_message-Same foreign c q duties d) in
      let (semantics, _, d₁, logic, _) = check_consensus_message-ok foreign duties c q d e h in
      let (_, many, _) =
        >>=-eq-ok (check_signers m q (quorum_size (length c.committee_info.committee_members))) _
          semantics in
      recorded-by-signers d d₁ e m.operator_ids refl (Same-WellFormed d e same w) many same logic

  finish-WellFormed :
      (d : DutyState) (checked : Outcome Unit)
      → WellFormed d
      → check_consensus_message foreign duties c q d ≡ checked
      → WellFormed
          (continue_with checked λ _ left. (
            ok q,
            update_for_consensus_message foreign.sha256 left c.signed_ssv_message q
                c.signed_ssv_message.operator_ids,
          )).1
  unfolding continue_with
  finish-WellFormed d (panic, e) w h =
      Same-WellFormed d e
        (subst (Same d) (ap (λ o. o.1) h) (check_consensus_message-Same foreign c q duties d)) w
  finish-WellFormed d (err x, e) w h =
      Same-WellFormed d e
        (subst (Same d) (ap (λ o. o.1) h) (check_consensus_message-Same foreign c q duties d)) w
  finish-WellFormed d (ok t, e) w h = recorded-WellFormed d e w h

-- Whatever a consensus message is and however its validation ends, the state of duties stays
-- well-formed: the rings keep their size, and for every signer and slot at most one message of each
-- kind is counted, so no counter overflows, and no more signing roots than their budgets allow.
pub validate_consensus_message-WellFormed :
    (foreign : Foreign) (duties : DutiesProvider) (c : ValidationContext) (d : DutyState)
    → WellFormed d
    → WellFormed (validate_consensus_message foreign duties c d).1
unfolding validate_consensus_message
validate_consensus_message-WellFormed foreign duties c d w =
    elim (Option-cases (foreign.decode_qbft c.signed_ssv_message.ssv_message.msg_data)) [
      | inl undecodable ↦ rw (validate_consensus_message, undecodable) w
      | inr (q, decoded) ↦
          rw (validate_consensus_message, decoded)
            (finish-WellFormed foreign duties c q d (check_consensus_message foreign duties c q d) w
              refl)
    ]
