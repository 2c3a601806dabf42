-- ===== src/Validator/Admission.antt =====
-- What a consensus message that the validator accepts has passed
-- (anchor/message_validator/src/consensus_message.rs).
use anchor.Base.{
  ℕ, ◌≤◌, ◌<◌, ◌≡◌, refl, sym, ap, ◌⊎◌, inl, inr, true, not, [], ◌∷◌, Option, none, some, arith,
  ◌==◌, ltb, length, is_empty, Bool-cases, Option-cases, eq_of_==, and_true,
}
use anchor.Base.Result.{ok, err, panic, guard-eq-ok, >>=-eq-ok}
use anchor.Ssv.Committee.{quorum_size}
use anchor.Ssv.Message.{Bytes, SignedSsvMessage}
use anchor.Ssv.Consensus.{QbftMessage, is_commit}
use anchor.Ssv.MessageId.{Role, message_id_role, max_round}
use anchor.Validator.Failure.{ValidationFailure, undecodable_message_data}
use anchor.Validator.DutyState.{DutyState, update_for_consensus_message}
use anchor.Validator.Context.{Foreign, DutiesProvider, ValidationContext, verify_message_signatures}
use anchor.Validator.Rules.{validate_role_for_fork}
use anchor.Validator.Justifications.{
  bytes_equal, check_signers, check_full_data, check_max_round,
  validate_consensus_message_semantics,
}
use anchor.Validator.Consensus.{
  Outcome, continue_with, validate_qbft_logic, validate_qbft_message_by_duty_logic,
  check_consensus_message, validate_consensus_message,
}

bytes_equal-eq : (as' bs : Bytes) → bytes_equal as' bs ≡ true → as' ≡ bs
bytes_equal-eq [] [] h = refl
bytes_equal-eq [] (b ∷ bs) h = cc
bytes_equal-eq (a ∷ as') [] h = cc
bytes_equal-eq (a ∷ as') (b ∷ bs) h =
    let (x, y) = and_true (a == b) (bytes_equal as' bs) h in
    rw (eq_of_== a b x, bytes_equal-eq as' bs y) refl

-- What came before passed, and the rest returned.
pub continue_with-ok :
    {A B : Type 0} (first : Outcome A) (rest : A → DutyState → Outcome B) (b : B) (d : DutyState)
    → continue_with first rest ≡ (ok b, d)
    → (a : A) × (e : DutyState) × (first ≡ (ok a, e)) × (rest a e ≡ (ok b, d))
unfolding continue_with
continue_with-ok (panic, d₀) rest b d h = let e : panic ≡ ok b = ap (λ x. x.0) h in cc
continue_with-ok (err e, d₀) rest b d h = let e : err e ≡ ok b = ap (λ x. x.0) h in cc
continue_with-ok (ok a, d₀) rest b d h = (a, d₀, refl, h)

-- What acceptance tells of a message.
pub record Accepted (foreign : Foreign) (c : ValidationContext) (q : QbftMessage) : Type 0 where
  pub decoded : foreign.decode_qbft c.signed_ssv_message.ssv_message.msg_data ≡ some q
  pub signers :
      (length c.signed_ssv_message.operator_ids ≡ 1)
      ⊎ ((is_commit q.qbft_message_type ≡ true)
          × (quorum_size (length c.committee_info.committee_members)
              ≤ length c.signed_ssv_message.operator_ids))
  pub hashed :
      (is_empty c.signed_ssv_message.full_data ≡ true)
      ⊎ (foreign.sha256 c.signed_ssv_message.full_data ≡ q.root)
  pub round :
      (role : Role) × (bound : ℕ) × (message_id_role c.signed_ssv_message.ssv_message.msg_id
        ≡ some role)
      × (max_round role ≡ some bound)
      × (1 ≤ q.round)
      × (q.round ≤ bound)
  pub identifier : q.identifier ≡ c.signed_ssv_message.ssv_message.msg_id
  pub verified : verify_message_signatures foreign c.signed_ssv_message c.operator_pub_keys ≡ ok tt

pub check_signers-ok :
    (m : SignedSsvMessage) (q : QbftMessage) (n : ℕ)
    → 0 < length m.operator_ids
    → check_signers m q n ≡ ok tt
    → (length m.operator_ids ≡ 1)
      ⊎ ((is_commit q.qbft_message_type ≡ true) × (n ≤ length m.operator_ids))
unfolding check_signers
check_signers-ok m q n p h = elim (Bool-cases (ltb 1 (length m.operator_ids))) [
  | inr one ↦ inl (ground (arith, one))
  | inl more ↦ inr (ground (arith, more), ground (arith, more))
]

check_full_data-ok :
    (foreign : Foreign) (m : SignedSsvMessage) (q : QbftMessage)
    → check_full_data foreign m q ≡ ok tt
    → (is_empty m.full_data ≡ true) ⊎ (foreign.sha256 m.full_data ≡ q.root)
unfolding check_full_data
check_full_data-ok foreign m q h = elim (Bool-cases (is_empty m.full_data)) [
  | inl empty ↦ inl empty
  | inr full ↦ inr (eq_of_== _ _ (ground (arith, full)))
]

check_max_round-ok :
    (role : Option Role) (round : ℕ)
    → check_max_round role round ≡ ok tt
    → (r : Role) × (bound : ℕ) × (role ≡ some r) × (max_round r ≡ some bound) × (round ≤ bound)
unfolding check_max_round
check_max_round-ok none round h = cc
check_max_round-ok (some r) round h = elim (Option-cases (max_round r)) [
  | inl missing ↦ absurd (ground (arith, missing))
  | inr (bound, found) ↦ (r, bound, refl, found, ground (arith, found))
]

-- The checks of an accepted message, in their order.
pub check_consensus_message-ok :
    (foreign : Foreign) (duties : DutiesProvider) (c : ValidationContext) (q : QbftMessage)
    (d d' : DutyState)
    → check_consensus_message foreign duties c q d ≡ (ok tt, d')
    → (validate_consensus_message_semantics foreign c.signed_ssv_message q
          c.committee_info.committee_members c.operator_pub_keys
        ≡ ok tt)
      × (verify_message_signatures foreign c.signed_ssv_message c.operator_pub_keys ≡ ok tt)
      × (e : DutyState) × (validate_qbft_logic foreign c q d ≡ (ok tt, e))
      × (validate_qbft_message_by_duty_logic foreign duties c q e ≡ (ok tt, d'))
unfolding check_consensus_message
check_consensus_message-ok foreign duties c q d d' h =
    let (_, d₁, form, h₁) = continue_with-ok _ _ tt d' h in
    let (_, d₂, logic, h₂) = continue_with-ok (validate_qbft_logic foreign c q d₁) _ tt d' h₁ in
    let (_, d₃, duty, h₃) =
      continue_with-ok (validate_qbft_message_by_duty_logic foreign duties c q d₂) _ tt d' h₂ in
    let (_, _, semantics) =
      >>=-eq-ok (validate_role_for_fork foreign c q.height) _ (ap (λ x. x.0) form) in
    let start : d ≡ d₁ = ap (λ x. x.1) form in
    let last : d₃ ≡ d' = ap (λ x. x.1) h₃ in
    (semantics, ap (λ x. x.0) h₃, d₂, rw start logic, rw (sym last) duty)

decoded-ok :
    {A B : Type 0} (decoded : Option A) (fail : ValidationFailure) (d d' : DutyState)
    (rest : A → Outcome B) (b : B)
    → elim decoded as (λ _. Outcome B) [ none ↦ (err fail, d) | some a ↦ rest a ] ≡ (ok b, d')
    → (a : A) × (decoded ≡ some a) × (rest a ≡ (ok b, d'))
decoded-ok none fail d d' rest b h = let e : err fail ≡ ok b = ap (λ x. x.0) h in cc
decoded-ok (some a) fail d d' rest b h = (a, refl, h)

-- An accepted message was decoded, passed the checks, and was recorded.
pub validate_consensus_message-ok :
    (foreign : Foreign) (duties : DutiesProvider) (c : ValidationContext) (d d' : DutyState)
    (q : QbftMessage)
    → validate_consensus_message foreign duties c d ≡ (ok q, d')
    → (foreign.decode_qbft c.signed_ssv_message.ssv_message.msg_data ≡ some q)
      × (e : DutyState) × (check_consensus_message foreign duties c q d ≡ (ok tt, e))
      × (d'
          ≡ update_for_consensus_message foreign.sha256 e c.signed_ssv_message q
              c.signed_ssv_message.operator_ids)
unfolding validate_consensus_message
validate_consensus_message-ok foreign duties c d d' q h =
    let m = c.signed_ssv_message in
    let recorded : QbftMessage → DutyState → Outcome QbftMessage =
      λ q e. (ok q, update_for_consensus_message foreign.sha256 e m q m.operator_ids) in
    let (q', found, h₁) =
      decoded-ok (foreign.decode_qbft m.ssv_message.msg_data) undecodable_message_data d d'
        (λ q. continue_with (check_consensus_message foreign duties c q d) λ _ e. recorded q e) q
        h in
    let (_, e, checked, h₂) =
      continue_with-ok (check_consensus_message foreign duties c q' d) _ q d' h₁ in
    let returned : ok q' ≡ ok q = ap (λ x. x.0) h₂ in
    let same : q' ≡ q = cc in
    let left = ap (λ x. x.1) h₂ in rw (sym same) (found, e, checked, sym left)

-- A message of at least one signer that the validator accepts has passed every rule on its form:
-- its data decode to the message returned; it has one signer, or it is a commit of a quorum; full
-- data have the hash of the root; the round is from 1 to the bound of the role; the identifier is
-- that of the envelope; all signatures verify.
pub validate_consensus_message-Accepted :
    (foreign : Foreign) (duties : DutiesProvider) (c : ValidationContext) (d d' : DutyState)
    (q : QbftMessage)
    → 0 < length c.signed_ssv_message.operator_ids
    → validate_consensus_message foreign duties c d ≡ (ok q, d')
    → Accepted foreign c q
unfolding validate_consensus_message_semantics
validate_consensus_message-Accepted foreign duties c d d' q p h =
    let m = c.signed_ssv_message in
    let (found, e, checked, _) = validate_consensus_message-ok foreign duties c d d' q h in
    let (semantics, verified, _, _, _) =
      check_consensus_message-ok foreign duties c q d e checked in
    let (_, many, h₁) =
      >>=-eq-ok (check_signers m q (quorum_size (length c.committee_info.committee_members))) _
        semantics in
    let (_, full, h₂) = >>=-eq-ok (check_full_data foreign m q) _ h₁ in
    let (positive, h₃) = guard-eq-ok (not (q.round == 0)) _ _ h₂ in
    let (_, bounded, h₄) =
      >>=-eq-ok (check_max_round (message_id_role m.ssv_message.msg_id) q.round) _ h₃ in
    let (same, _) = guard-eq-ok (bytes_equal q.identifier m.ssv_message.msg_id) _ _ h₄ in
    let (role, bound, has_role, has_bound, below) = check_max_round-ok _ q.round bounded in
    record {
      decoded = found;
      signers = check_signers-ok m q _ p many;
      hashed = check_full_data-ok foreign m q full;
      round = (role, bound, has_role, has_bound, ground (arith, positive), below);
      identifier = bytes_equal-eq q.identifier m.ssv_message.msg_id same;
      verified = verified;
    }
