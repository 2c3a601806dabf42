-- ===== src/Ssv/Message/Valid.antt =====
-- Which messages `SignedSSVMessage::validate` of anchor/common/ssv_types/src/message.rs accepts.
use anchor.Base.{
  ℕ, ◌+◌, ◌≤◌, ◌<◌, ◌≡◌, refl, ◌↔◌, false, not, List, [], ◌∷◌, arith, length, is_empty, All,
  eq_of_==,
}
use anchor.Base.Result.{ok, guard-eq-ok, >>=-eq-ok}
use anchor.Base.Sets.{contains, insert, Distinct, contains-insert}
use anchor.Ssv.Message.{
  Bytes, SsvMessage, SignedSsvMessage, max_size, rsa_signature_size, validate_ssv_message,
  check_signature_sizes, has_duplicate, validate, lift_error, no_signers, no_signatures,
  zero_signer, duplicated_signer, signers_and_signatures_with_different_length,
}

-- The rules for a signed message.
pub record IsWellFormed (m : SignedSsvMessage) : Type 0 where
  pub sizes : All (λ s. length s ≡ rsa_signature_size) m.signatures
  pub signed : 0 < length m.operator_ids
  pub paired : length m.operator_ids ≡ length m.signatures
  pub nonzero : contains m.operator_ids 0 ≡ false
  pub distinct : Distinct m.operator_ids
  pub bounds :
      (0 < length m.ssv_message.msg_data)
      × (length m.ssv_message.msg_data ≤ max_size m.ssv_message.msg_type)

check_signature_sizes_iff :
    (i : ℕ) (sigs : List Bytes)
    → (check_signature_sizes i sigs ≡ ok tt) ↔ All (λ s. length s ≡ rsa_signature_size) sigs
unfolding check_signature_sizes
check_signature_sizes_iff i [] = (λ h. tt, λ a. refl)
check_signature_sizes_iff i (s ∷ ss) =
    let ih = check_signature_sizes_iff (i + 1) ss in
    (λ h. ground (arith, ih.0), λ a. ground (arith, ih.1 a.1, a.0))

-- None of the identifiers was seen.
abbrev AllNew : List ℕ → List ℕ → Type 0
AllNew seen ids = All (λ x. contains seen x ≡ false) ids

AllNew-insert :
    (seen : List ℕ) (a : ℕ) (ids : List ℕ)
    → AllNew seen ids
    → contains ids a ≡ false
    → AllNew (insert a seen) ids
AllNew-insert seen a [] n c = tt
AllNew-insert seen a (x ∷ xs) n c =
    (ground (arith, contains-insert a x seen, n.0), AllNew-insert seen a xs n.1 (ground (arith, c)))

AllNew-of-insert :
    (seen : List ℕ) (a : ℕ) (ids : List ℕ)
    → AllNew (insert a seen) ids
    → AllNew seen ids × (contains ids a ≡ false)
AllNew-of-insert seen a [] n = (tt, refl)
AllNew-of-insert seen a (x ∷ xs) n =
    let (n', c) = AllNew-of-insert seen a xs n.1 in
    (
      (ground (arith, contains-insert a x seen, n.0), n'),
      ground (arith, contains-insert a x seen, n.0, c),
    )

has_duplicate_iff :
    (seen ids : List ℕ) → (has_duplicate seen ids ≡ false) ↔ (AllNew seen ids × Distinct ids)
unfolding has_duplicate
has_duplicate_iff seen [] = (λ h. (tt, tt), λ n. refl)
has_duplicate_iff seen (x ∷ xs) =
    let ih = has_duplicate_iff (insert x seen) xs in
    (
      λ h.
          let (n, d) = ih.0 (ground arith) in
          let (n', c) = AllNew-of-insert seen x xs n in ((ground arith, n'), (c, d)),
      λ n. ground (arith, n.0.0, ih.1 (AllNew-insert seen x xs n.0.1 n.1.0, n.1.1)),
    )

validate_ssv_message_iff :
    (m : SsvMessage)
    → (lift_error (validate_ssv_message m) ≡ ok tt)
      ↔ ((0 < length m.msg_data) × (length m.msg_data ≤ max_size m.msg_type))
unfolding validate_ssv_message
validate_ssv_message_iff m = ground arith

validate_sound : (m : SignedSsvMessage) → validate m ≡ ok tt → IsWellFormed m
unfolding validate
validate_sound m h =
    let (_, e₀, h₀) = >>=-eq-ok (check_signature_sizes 0 m.signatures) _ h in
    let (some_signer, h₁) = guard-eq-ok (not (is_empty m.operator_ids)) no_signers _ h₀ in
    let (_, h₂) = guard-eq-ok (not (is_empty m.signatures)) no_signatures _ h₁ in
    let (nonzero, h₃) = guard-eq-ok (not (contains m.operator_ids 0)) zero_signer _ h₂ in
    let (single, h₄) = guard-eq-ok (not (has_duplicate [] m.operator_ids)) duplicated_signer _ h₃ in
    let (paired, h₅) = guard-eq-ok _ signers_and_signatures_with_different_length _ h₄ in
    record {
      sizes = (check_signature_sizes_iff 0 m.signatures).0 e₀;
      signed = ground arith;
      paired = eq_of_== _ _ paired;
      nonzero = ground arith;
      distinct = ((has_duplicate_iff [] m.operator_ids).0 (ground arith)).1;
      bounds = (validate_ssv_message_iff m.ssv_message).0 h₅;
    }

AllNew-nil : (ids : List ℕ) → AllNew [] ids
AllNew-nil [] = tt
AllNew-nil (x ∷ xs) = (refl, AllNew-nil xs)

validate_complete : (m : SignedSsvMessage) → IsWellFormed m → validate m ≡ ok tt
unfolding validate
validate_complete m w =
    let sizes = (check_signature_sizes_iff 0 m.signatures).1 w.sizes in
    let single = (has_duplicate_iff [] m.operator_ids).1 (AllNew-nil m.operator_ids, w.distinct) in
    let inner = (validate_ssv_message_iff m.ssv_message).1 w.bounds in
    ground (arith, sizes, single, inner, w.paired, w.nonzero, w.signed)

-- `validate` accepts a message exactly when every signature has the RSA size, there is a signer and
-- one signature for each, no signer is 0 or appears twice, and the data inside is not empty and
-- within the bound of its type.
pub validate_iff : (m : SignedSsvMessage) → (validate m ≡ ok tt) ↔ IsWellFormed m
validate_iff m = (validate_sound m, validate_complete m)
