-- ===== src/Validator/Unchanged.antt =====
-- What validation leaves alone in the state of duties
-- (anchor/message_validator/src/consensus_message.rs and duty_state.rs).
use mathlib.Core.Path.{subst}
use anchor.Base.{
  ℕ, ◌≡◌, refl, ap, ◌∙◌, inl, inr, Bool, true, false, not, List, [], ◌∷◌, Option, none, some, ◌==◌,
  length, Bool-cases, eq_of_==, if◌then◌else◌,
}
use anchor.Base.Maps.{lookup-put}
use anchor.Base.Result.{Result, ok, err, panic}
use anchor.Ssv.Consensus.{QbftMessage}
use anchor.Ssv.MessageId.{is_committee_role}
use anchor.Validator.Failure.{ValidationFailure, undecodable_message_data}
use anchor.Validator.DutyState.{
  OperatorState, DutyState, operator_state, set_operator, get_or_create_operator,
  update_for_consensus_message,
}
use anchor.Validator.Context.{Foreign, DutiesProvider, ValidationContext}
use anchor.Validator.Consensus.{
  Outcome, continue_with, for_each_signer, validate_qbft_logic, validate_qbft_message_by_duty_logic,
  check_consensus_message, validate_consensus_message,
}

-- The state of every operator is the same, where one that is missing counts as a new one.
pub record Same (d d' : DutyState) : Type 0 where
  pub states : (signer : ℕ) → operator_state d' signer ≡ operator_state d signer
  pub places : d'.stored_slot_count ≡ d.stored_slot_count

pub Same-refl : (d : DutyState) → Same d d
Same-refl d = record { states = λ s. refl; places = refl }

pub Same-trans : {d e f : DutyState} → Same d e → Same e f → Same d f
Same-trans a b = record { states = λ s. b.states s ∙ a.states s; places = b.places ∙ a.places }

-- What is read after an operator's state is written.
pub operator_state-set_operator :
    (d : DutyState) (signer other : ℕ) (o : OperatorState)
    → operator_state (set_operator d signer o) other
      ≡ (if signer == other then o else operator_state d other)
unfolding operator_state
operator_state-set_operator d signer other o = elim (Bool-cases (signer == other)) [
  | inl same ↦ rw (operator_state, lookup-put signer other o d.operators, same) refl
  | inr different ↦ rw (operator_state, lookup-put signer other o d.operators, different) refl
]

pub get_or_create_operator-Same :
    (d : DutyState) (signer : ℕ) → Same d (get_or_create_operator d signer)
unfolding get_or_create_operator
get_or_create_operator-Same d signer = record {
  states = λ other.
      operator_state-set_operator d signer other (operator_state d signer)
      ∙ elim (Bool-cases (signer == other)) [
        | inl same ↦ rw (same, eq_of_== signer other same) refl
        | inr different ↦ rw different refl
      ];
  places = refl;
}

continue_with-Same :
    {A B : Type 0} (d : DutyState) (first : Outcome A) (rest : A → DutyState → Outcome B)
    → Same d first.1
    → ((a : A) (e : DutyState) → Same e (rest a e).1)
    → Same d (continue_with first rest).1
unfolding continue_with
continue_with-Same d (panic, e) rest s f = s
continue_with-Same d (err x, e) rest s f = s
continue_with-Same d (ok a, e) rest s f = Same-trans s (f a e)

if-Same :
    {A : Type 0} (d : DutyState) (b : Bool) (x y : Outcome A)
    → Same d x.1
    → Same d y.1
    → Same d (if b then x else y).1
if-Same d true x y s t = s
if-Same d false x y s t = t

for_each_signer-Same :
    (test : ℕ → OperatorState → Result ValidationFailure (Unit {0})) (signers : List ℕ)
    (d : DutyState)
    → Same d (for_each_signer test signers d).1
unfolding for_each_signer
for_each_signer-Same test [] d = Same-refl d
for_each_signer-Same test (signer ∷ signers) d =
    continue_with-Same d (test signer (operator_state d signer), get_or_create_operator d signer)
      (λ _ made. for_each_signer test signers made) (get_or_create_operator-Same d signer)
      (λ _ e. for_each_signer-Same test signers e)

module _ (foreign : Foreign) (c : ValidationContext) (q : QbftMessage) where
  validate_qbft_logic-Same : (d : DutyState) → Same d (validate_qbft_logic foreign c q d).1
  unfolding validate_qbft_logic
  validate_qbft_logic-Same d = continue_with-Same d _ _ (Same-refl d) (λ _ e.
      continue_with-Same e _ _ (for_each_signer-Same _ c.signed_ssv_message.operator_ids e) (λ _ f.
        if-Same f (length c.signed_ssv_message.operator_ids == 1) _ _ (Same-refl f) (Same-refl f)))

  module _ (duties : DutiesProvider) where
    duty_logic-Same :
        (d : DutyState) → Same d (validate_qbft_message_by_duty_logic foreign duties c q d).1
    unfolding validate_qbft_message_by_duty_logic
    duty_logic-Same d =
        let signers = c.signed_ssv_message.operator_ids in
        continue_with-Same d _ _
          (if-Same d (not (is_committee_role c.role)) _ _ (for_each_signer-Same _ signers d)
            (Same-refl d))
          (λ _ e. continue_with-Same e _ _ (Same-refl e) (λ _ f. for_each_signer-Same _ signers f))

    pub check_consensus_message-Same :
        (d : DutyState) → Same d (check_consensus_message foreign duties c q d).1
    unfolding check_consensus_message
    check_consensus_message-Same d = continue_with-Same d _ _ (Same-refl d) (λ _ e.
        continue_with-Same e _ _ (validate_qbft_logic-Same e)
          (λ _ f. continue_with-Same f _ _ (duty_logic-Same f) (λ _ g. Same-refl g)))

refused-Same :
    {A : Type 0} (d d' : DutyState) (checked : Outcome Unit) (record_it : DutyState → DutyState)
    (a : A) (e : ValidationFailure)
    → Same d checked.1
    → continue_with checked (λ _ left. (ok a, record_it left)) ≡ (err e, d')
    → Same d d'
unfolding continue_with
refused-Same d d' (panic, left) record_it a e s h = let x : panic ≡ err e = ap (λ o. o.0) h in cc
refused-Same d d' (err x, left) record_it a e s h = subst (Same d) (ap (λ o. o.1) h) s
refused-Same d d' (ok t, left) record_it a e s h = let x : ok a ≡ err e = ap (λ o. o.0) h in cc

decoded-Same :
    {A : Type 0} (decoded : Option A) (fail e : ValidationFailure) (d d' : DutyState)
    (check : A → Outcome Unit) (record_it : A → DutyState → DutyState)
    → ((a : A) → Same d (check a).1)
    → elim decoded as (λ _. Outcome A) [
      | none ↦ (err fail, d)
      | some a ↦ continue_with (check a) λ _ left. (ok a, record_it a left)
    ]
      ≡ (err e, d')
    → Same d d'
decoded-Same none fail e d d' check record_it s h = subst (Same d) (ap (λ o. o.1) h) (Same-refl d)
decoded-Same (some a) fail e d d' check record_it s h =
    refused-Same d d' (check a) (record_it a) a e (s a) h

-- A consensus message that is refused, whatever the failure and whichever check it is of, leaves
-- the state of every operator and the size of the rings as they were.
pub validate_consensus_message_refused :
    (foreign : Foreign) (duties : DutiesProvider) (c : ValidationContext) (d d' : DutyState)
    (e : ValidationFailure)
    → validate_consensus_message foreign duties c d ≡ (err e, d')
    → Same d d'
unfolding validate_consensus_message
validate_consensus_message_refused foreign duties c d d' e h =
    let m = c.signed_ssv_message in
    decoded-Same (foreign.decode_qbft m.ssv_message.msg_data) undecodable_message_data e d d'
      (λ q. check_consensus_message foreign duties c q d)
      (λ q left. update_for_consensus_message foreign.sha256 left m q m.operator_ids)
      (λ q. check_consensus_message-Same foreign c q duties d) h
