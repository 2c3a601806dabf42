-- ===== src/Validator/Bounded/Partial.antt =====
-- Validation of partial signatures keeps the bounds of the state of duties
-- (anchor/message_validator/src/partial_signature.rs).
use mathlib.Core.Path.{subst}
use anchor.Base.{ℕ, ◌≡◌, refl, sym, ap, ◌∙◌, inl, inr, Option, none, some, Option-cases}
use anchor.Base.Result.{ok, err, panic, ok_or, >>=-eq-ok}
use anchor.Ssv.PartialSig.{PartialSignatureMessages}
use anchor.Validator.Failure.{signers_missing}
use anchor.Validator.SignerState.{SignerState}
use anchor.Validator.DutyState.{
  DutyState, operator_state, get_signer_state, update_for_partial_signature,
}
use anchor.Validator.Context.{
  Foreign, DutiesProvider, ValidationContext, first, verify_single_signer,
}
use anchor.Validator.Duty.{validate_beacon_duty}
use anchor.Validator.Consensus.{Outcome, continue_with}
use anchor.Validator.Partial.{
  check_kind_count, check_partial_duty, check_partial_form, check_slot_advanced,
  validate_partial_sig_messages_by_duty_logic, validate_partial_signature_message,
}
use anchor.Validator.Unchanged.{Same, Same-refl, get_or_create_operator-Same}
use anchor.Validator.Bounded.{WellFormed, Same-WellFormed}
use anchor.Validator.Bounded.Packets.{
  PartialFits, update_for_partial_signature-WellFormed, check_kind_count-room,
}

-- A property of the states that both parts keep.
continue_with-keeps :
    {A B : Type 0} (P : DutyState → Type 0) (first : Outcome A) (rest : A → DutyState → Outcome B)
    → P first.1
    → ((a : A) (e : DutyState) → first ≡ (ok a, e) → P e → P (rest a e).1)
    → P (continue_with first rest).1
unfolding continue_with
continue_with-keeps P (panic, e) rest s f = s
continue_with-keeps P (err x, e) rest s f = s
continue_with-keeps P (ok a, e) rest s f = f a e refl s

module _ (foreign : Foreign) (duties : DutiesProvider) (c : ValidationContext)
    (p : PartialSignatureMessages) where
  -- The duty logic keeps the states, and makes room for the packet of the first signer.
  duty_logic-Same :
      (d : DutyState) (signer : Option ℕ)
      → first c.signed_ssv_message.operator_ids ≡ signer
      → Same d (validate_partial_sig_messages_by_duty_logic foreign duties c p d).1
  unfolding validate_partial_sig_messages_by_duty_logic
  duty_logic-Same d none e = rw (validate_partial_sig_messages_by_duty_logic, e) (Same-refl d)
  duty_logic-Same d (some signer) e =
      rw (validate_partial_sig_messages_by_duty_logic, e) (get_or_create_operator-Same d signer)

  duty_logic-room :
      (d e : DutyState) (signer : ℕ)
      → first c.signed_ssv_message.operator_ids ≡ some signer
      → validate_partial_sig_messages_by_duty_logic foreign duties c p d ≡ (ok tt, e)
      → (s : SignerState) → get_signer_state (operator_state d signer) p.slot ≡ some s
      → PartialFits s.message_counts p.kind
  unfolding validate_partial_sig_messages_by_duty_logic check_partial_duty
  duty_logic-room d e signer ids h =
      let o = operator_state d signer in
      let passed : check_partial_duty foreign duties c p o ≡ ok tt =
        ap (λ r. r.0) (rw (validate_partial_sig_messages_by_duty_logic, ids) at h) in
      let (_, _, h₁) = >>=-eq-ok (check_slot_advanced c.role p o) _ passed in
      let (_, _, h₂) = >>=-eq-ok (validate_beacon_duty foreign duties c p.slot _) _ h₁ in
      let (_, kinds, _) = >>=-eq-ok (check_kind_count p o) _ h₂ in check_kind_count-room p o kinds

  ok_or-ok :
      (o : Option ℕ) (d e : DutyState) (a : ℕ)
      → ◌≡◌ {A = Outcome ℕ} (ok_or o signers_missing, d) (ok a, e)
      → (o ≡ some a) × (d ≡ e)
  ok_or-ok none d e a h = let x : err signers_missing ≡ ok a = ap (λ r. r.0) h in cc
  ok_or-ok (some b) d e a h = let x : ok b ≡ ok a = ap (λ r. r.0) h in (cc, ap (λ r. r.1) h)

  record_first-WellFormed :
      (d₁ e : DutyState)
      → WellFormed e
      → Same d₁ e
      → validate_partial_sig_messages_by_duty_logic foreign duties c p d₁ ≡ (ok tt, e)
      → WellFormed
          (continue_with
            (ok_or (first c.signed_ssv_message.operator_ids) signers_missing, e)
            λ signer left.
              continue_with (update_for_partial_signature left p signer) λ _ last. (ok p, last)).1
  record_first-WellFormed d₁ e w same h =
      continue_with-keeps WellFormed
        (ok_or (first c.signed_ssv_message.operator_ids) signers_missing, e)
        (λ signer left.
          continue_with (update_for_partial_signature left p signer) λ _ last. (ok p, last))
        w
        (λ signer left equal w'.
          let (ids, kept) =
            ok_or-ok (first c.signed_ssv_message.operator_ids) e left signer equal in
          let same' : Same d₁ left = subst (Same d₁) kept same in
          continue_with-keeps WellFormed (update_for_partial_signature left p signer)
            (λ _ last. (ok p, last))
            (update_for_partial_signature-WellFormed left p signer w' (λ s found.
              duty_logic-room d₁ e signer ids h s (rw (sym (same'.states signer)) found)))
            (λ _ last _ w''. w''))

  checked-WellFormed :
      (d : DutyState)
      → WellFormed d
      → WellFormed
          (continue_with
            (check_partial_form foreign c p, d)
            λ signer d.
              continue_with
                (validate_partial_sig_messages_by_duty_logic foreign duties c p d)
                λ _ d.
                  continue_with
                    (verify_single_signer foreign c signer, d)
                    λ _ d.
                      continue_with
                        (ok_or (first c.signed_ssv_message.operator_ids) signers_missing, d)
                        λ signer d.
                          continue_with
                            (update_for_partial_signature d p signer)
                            λ _ d. (ok p, d)).1
  checked-WellFormed d w =
      continue_with-keeps WellFormed (check_partial_form foreign c p, d) _ w
        (λ signer d₁ _ w₁.
          let same = duty_logic-Same d₁ (first c.signed_ssv_message.operator_ids) refl in
          let logic = validate_partial_sig_messages_by_duty_logic foreign duties c p d₁ in
          continue_with-keeps WellFormed logic _ (Same-WellFormed d₁ logic.1 same w₁)
            (λ _ e passed w₂.
              let same' : Same d₁ e = subst (Same d₁) (ap (λ r. r.1) passed) same in
              continue_with-keeps WellFormed (verify_single_signer foreign c signer, e) _ w₂
                (λ _ e' verified w₃.
                  let kept : e ≡ e' = ap (λ r. r.1) verified in
                  record_first-WellFormed d₁ e' w₃ (subst (Same d₁) kept same')
                    (passed ∙ ap (λ x. (ok tt, x)) kept))))

-- Whatever a packet of partial signatures is and however its validation ends, the state of duties
-- stays well-formed: at most one packet before and one after consensus is counted for a signer and
-- slot, and the distinct roots of preferences and of authorisations stay within 4 and 8.
pub validate_partial_signature_message-WellFormed :
    (foreign : Foreign) (duties : DutiesProvider) (c : ValidationContext) (d : DutyState)
    → WellFormed d
    → WellFormed (validate_partial_signature_message foreign duties c d).1
unfolding validate_partial_signature_message
validate_partial_signature_message-WellFormed foreign duties c d w =
    elim (Option-cases (foreign.decode_partial c.signed_ssv_message.ssv_message.msg_data)) [
      | inl undecodable ↦ rw (validate_partial_signature_message, undecodable) w
      | inr (p, decoded) ↦
          rw (validate_partial_signature_message, decoded)
            (checked-WellFormed foreign duties c p d w)
    ]
