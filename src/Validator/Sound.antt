-- ===== src/Validator/Sound.antt =====
-- Each step of the validator keeps its stored states of duties well-formed
-- (anchor/message_validator/src/lib.rs).
use mathlib.Core.Path.{subst}
use anchor.Base.{
  ℕ, ◌<◌, ◌≡◌, refl, inl, inr, Bool, true, false, not, Option, none, some, arith, if◌then◌else◌,
  Option-cases, Bool-cases, every,
}
use anchor.Base.Sets.{contains}
use anchor.Base.Result.{Result, ok, err, panic}
use anchor.Ssv.Message.{
  Bytes, SignedSsvMessage, MsgType, ssv_consensus_msg_type, ssv_partial_signature_msg_type,
}
use anchor.Ssv.MessageId.{
  Role, committee, aggregator, proposer, sync_committee, validator_registration, voluntary_exit,
  aggregator_committee, ptc_attester, proposer_preferences,
}
use anchor.Validator.Failure.{ValidationFailure, signer_not_in_committee}
use anchor.Validator.DutyState.{DutyState, outdated}
use anchor.Validator.Context.{Foreign, DutiesProvider, ValidationContext, CommitteeInfo}
use anchor.Validator.Rules.{stored_slot_count}
use anchor.Validator.Justifications.{bytes_equal}
use anchor.Validator.Consensus.{Outcome, validate_consensus_message}
use anchor.Validator.Partial.{validate_partial_signature_message}
use anchor.Validator.Entry.{
  ValidatedSsvMessage, qbft_message, partial_signature_messages, as_validated,
  validate_ssv_message_in,
}
use anchor.Validator.Machine.{
  Validator, TopicContext, route, get_duty_state, put_duty_state, context_of,
  validate_decoded_message, ValidationResult, success, post_decode_failure, panicked,
  validate_bytes, clean,
}
use anchor.Validator.Bounded.{WellFormed, new_duty_state-WellFormed}
use anchor.Validator.Bounded.Preserved.{validate_consensus_message-WellFormed}
use anchor.Validator.Bounded.Partial.{validate_partial_signature_message-WellFormed}

-- Every stored state of duties is well-formed.
pub record Sound (v : Validator) : Type 0 where
  pub slots : 0 < v.slots_per_epoch
  pub states : (id : Bytes) (d : DutyState) → v.duty_state_map id ≡ some d → WellFormed d

as_validated-state :
    {A : Type 0} (wrap : A → ValidatedSsvMessage) (o : Outcome A) → (as_validated wrap o).1 ≡ o.1
as_validated-state wrap (panic, d) = refl
as_validated-state wrap (err e, d) = refl
as_validated-state wrap (ok a, d) = refl

validate_ssv_message_in-WellFormed :
    (foreign : Foreign) (duties : DutiesProvider) (c : ValidationContext) (d : DutyState)
    → WellFormed d
    → WellFormed (validate_ssv_message_in foreign duties c d).1
unfolding validate_ssv_message_in
validate_ssv_message_in-WellFormed foreign duties c d w =
    by_membership
      (not (every (contains c.committee_info.committee_members) c.signed_ssv_message.operator_ids))
      c.signed_ssv_message.ssv_message.msg_type
  where
    by_type :
        (t : MsgType)
        → WellFormed
            (elim t as (λ _. Outcome ValidatedSsvMessage) [
              | ssv_consensus_msg_type ↦
                  as_validated qbft_message (validate_consensus_message foreign duties c d)
              | ssv_partial_signature_msg_type ↦
                  as_validated partial_signature_messages
                    (validate_partial_signature_message foreign duties c d)
            ]).1
    by_type ssv_consensus_msg_type =
        rw (as_validated-state qbft_message (validate_consensus_message foreign duties c d))
          (validate_consensus_message-WellFormed foreign duties c d w)
    by_type ssv_partial_signature_msg_type =
        rw
          (as_validated-state partial_signature_messages
            (validate_partial_signature_message foreign duties c d))
          (validate_partial_signature_message-WellFormed foreign duties c d w)

    by_membership :
        (stranger : Bool) (t : MsgType)
        → WellFormed
            (if stranger
              then (err signer_not_in_committee, d)
              else elim t as (λ _. Outcome ValidatedSsvMessage) [
                | ssv_consensus_msg_type ↦
                    as_validated qbft_message (validate_consensus_message foreign duties c d)
                | ssv_partial_signature_msg_type ↦
                    as_validated partial_signature_messages
                      (validate_partial_signature_message foreign duties c d)
              ]).1
    by_membership true t = w
    by_membership false t = by_type t

stored_slot_count-pos :
    (role : Role) (slots_per_epoch lookahead : ℕ)
    → 0 < slots_per_epoch
    → 0 < stored_slot_count role slots_per_epoch lookahead
unfolding stored_slot_count
stored_slot_count-pos proposer_preferences n l p = omega arith
stored_slot_count-pos committee n l p = omega arith
stored_slot_count-pos aggregator n l p = omega arith
stored_slot_count-pos proposer n l p = omega arith
stored_slot_count-pos sync_committee n l p = omega arith
stored_slot_count-pos validator_registration n l p = omega arith
stored_slot_count-pos voluntary_exit n l p = omega arith
stored_slot_count-pos aggregator_committee n l p = omega arith
stored_slot_count-pos ptc_attester n l p = omega arith

module _ (foreign : Foreign) (duties : DutiesProvider) where
  get_duty_state-WellFormed :
      (v : Validator) (id : Bytes) (role : Role)
      → Sound v
      → WellFormed (get_duty_state foreign v id role)
  unfolding get_duty_state
  get_duty_state-WellFormed v id role s = elim (Option-cases (v.duty_state_map id)) [
    | inl missing ↦
        rw (get_duty_state, missing)
          (new_duty_state-WellFormed
            (stored_slot_count role v.slots_per_epoch foreign.min_seed_lookahead)
            (stored_slot_count-pos role v.slots_per_epoch foreign.min_seed_lookahead s.slots))
    | inr (d, found) ↦ rw (get_duty_state, found) (s.states id d found)
  ]

  put_duty_state-Sound :
      (v : Validator) (id : Bytes) (d : DutyState)
      → Sound v
      → WellFormed d
      → Sound (put_duty_state v id d)
  unfolding put_duty_state
  put_duty_state-Sound v id d s w = record {
    slots = s.slots;
    states = λ other e h. elim (Bool-cases (bytes_equal id other)) [
      | inl same ↦
          let x : some d ≡ some e = rw same at h in let y : d ≡ e = cc in subst WellFormed y w
      | inr different ↦ s.states other e (rw different at h)
    ];
  }

  -- What `validate_decoded_message` does with the outcome of the routing.
  routed-Sound :
      (v : Validator) (m : SignedSsvMessage) (received_at : ℕ)
      (r : Result ValidationFailure (Role × CommitteeInfo))
      → Sound v
      → Sound
          (elim r as (λ _. Result ValidationFailure ValidatedSsvMessage × Validator) [
            | panic ↦ (panic, v)
            | err e ↦ (err e, v)
            | ok (role, info) ↦
                let id = m.ssv_message.msg_id in
                let (result, d) =
                  validate_ssv_message_in foreign duties
                    (context_of v m role info received_at)
                    (get_duty_state foreign v id role) in
                (result, put_duty_state v id d)
          ]).1
  routed-Sound v m received_at panic s = s
  routed-Sound v m received_at (err e) s = s
  routed-Sound v m received_at (ok (role, info)) s =
      let id = m.ssv_message.msg_id in
      let d = get_duty_state foreign v id role in
      let c = context_of v m role info received_at in
      put_duty_state-Sound v id (validate_ssv_message_in foreign duties c d).1 s (
        validate_ssv_message_in-WellFormed foreign duties c d
          (get_duty_state-WellFormed v id role s))

  validate_decoded_message-Sound :
      (v : Validator) (m : SignedSsvMessage) (topic : TopicContext) (received_at : ℕ)
      → Sound v
      → Sound (validate_decoded_message foreign duties v m topic received_at).1
  unfolding validate_decoded_message
  validate_decoded_message-Sound v m topic received_at s =
      routed-Sound v m received_at (route foreign v m topic) s

  result-Sound :
      (m : SignedSsvMessage) (left : Validator) (r : Result ValidationFailure ValidatedSsvMessage)
      → Sound left
      → Sound
          (elim r as (λ _. ValidationResult × Validator) [
            | panic ↦ (panicked, left)
            | err e ↦ (post_decode_failure e m, left)
            | ok message ↦ (success m message, left)
          ]).1
  result-Sound m left panic s = s
  result-Sound m left (err e) s = s
  result-Sound m left (ok message) s = s

  pub validate_bytes-Sound :
      (v : Validator) (bytes : Bytes) (topic : TopicContext) (received_at : ℕ)
      → Sound v
      → Sound (validate_bytes foreign duties v bytes topic received_at).1
  unfolding validate_bytes
  validate_bytes-Sound v bytes topic received_at s =
      elim (Option-cases (foreign.decode_signed bytes)) [
        | inl undecodable ↦ rw (validate_bytes, undecodable) s
        | inr (m, decoded) ↦
            let step = validate_decoded_message foreign duties v m topic received_at in
            rw (validate_bytes, decoded)
              (result-Sound m step.1 step.0
                (validate_decoded_message-Sound v m topic received_at s))
      ]

kept-some :
    (o : Option DutyState) (now : ℕ) (d : DutyState)
    → elim o as (λ _. Option DutyState) [
      | none ↦ none
      | some e ↦ if outdated e now then none else some e
    ]
      ≡ some d
    → o ≡ some d
kept-some none now d h = cc
kept-some (some e) now d h = elim (Bool-cases (outdated e now)) [
  | inl old ↦ let x : none ≡ some d = rw old at h in cc
  | inr young ↦ rw young at h
]

pub clean-Sound : (v : Validator) (now : ℕ) → Sound v → Sound (clean v now)
unfolding clean
clean-Sound v now s = record {
  slots = s.slots;
  states = λ id d h. s.states id d (kept-some (v.duty_state_map id) now d h);
}
