-- ===== src/Ssv/PartialSig/Kinds.antt =====
-- The codec of the kinds of anchor/common/ssv_types/src/partial_sig.rs, and the common signer.
use anchor.Base.{
  ℕ, ◌≡◌, refl, sym, ◌∙◌, ◌↔◌, List, [], ◌∷◌, arith, ◌==◌, length, All, Bool-cases, Option-cases,
  inl, inr, eq_of_==, ==_refl, true, some, All-every, every-All, All-imp, every,
}
use anchor.Base.Result.{ok}
use anchor.Ssv.Message.{Bytes}
use anchor.Ssv.Codec.{from_le}
use anchor.Ssv.Codec.Roundtrip.{AreBytes, to_le-from_le}
use anchor.Ssv.PartialSig.{
  PartialSignatureKind, post_consensus, randao_partial_sig, selection_proof_partial_sig,
  contribution_proofs, validator_registration_sig, voluntary_exit_sig,
  aggregator_committee_partial_sig, ptc_attester_sig, proposer_preferences_sig, request_auth,
  kind_value, kind_of, encode_kind, decode_kind, PartialSignatureMessage, common_signer,
}

value_of_some :
    (value : ℕ) (kind : PartialSignatureKind) → kind_of value ≡ some kind → value ≡ kind_value kind
unfolding kind_of
value_of_some value kind e = ground arith

decode-encode : (kind : PartialSignatureKind) → decode_kind (encode_kind kind) ≡ ok kind
unfolding decode_kind encode_kind kind_of
decode-encode post_consensus = refl
decode-encode randao_partial_sig = refl
decode-encode selection_proof_partial_sig = refl
decode-encode contribution_proofs = refl
decode-encode validator_registration_sig = refl
decode-encode voluntary_exit_sig = refl
decode-encode aggregator_committee_partial_sig = refl
decode-encode ptc_attester_sig = refl
decode-encode proposer_preferences_sig = refl
decode-encode request_auth = refl

-- Bytes decode to a kind of partial signature exactly if they are the encoding of that kind.
pub decode_kind_iff :
    (bytes : Bytes) (kind : PartialSignatureKind)
    → AreBytes bytes
    → (decode_kind bytes ≡ ok kind) ↔ (bytes ≡ encode_kind kind)
unfolding decode_kind encode_kind
decode_kind_iff bytes kind h = (forward, λ e. rw e (decode-encode kind))
  where
    forward : decode_kind bytes ≡ ok kind → bytes ≡ encode_kind kind
    forward e = elim (Bool-cases (length bytes == 8)) [
      | inr bad ↦ absurd (ground (arith, bad))
      | inl good ↦ elim (Option-cases (kind_of (from_le bytes))) [
        | inl missing ↦ absurd (ground (arith, good, missing))
        | inr (k, found) ↦
            let v = value_of_some (from_le bytes) kind (ground (arith, good, found)) in
            sym (to_le-from_le bytes h) ∙ rw (eq_of_== (length bytes) 8 good, v) refl
      ]
    ]

-- A packet has the common signer s exactly if it is not empty, s is not 0 and every message is
-- signed by s.
common_signer_iff :
    (messages : List PartialSignatureMessage) (s : ℕ)
    → (common_signer messages ≡ ok s)
      ↔ ((¬ (messages ≡ [])) × (¬ (s ≡ 0)) × All (λ m. m.signer ≡ s) messages)
unfolding common_signer
common_signer_iff [] s = (λ e. cc, λ h. absurd (h.0 refl))
common_signer_iff (first ∷ rest) s = (forward, backward)
  where
    forward :
        common_signer (first ∷ rest) ≡ ok s
        → (¬ (first ∷ rest ≡ [])) × (¬ (s ≡ 0)) × All (λ m. m.signer ≡ s) (first ∷ rest)
    forward e = elim (Bool-cases (every (λ m. m.signer == first.signer) rest)) [
      | inr bad ↦ absurd (ground (arith, bad))
      | inl good ↦
          let same : first.signer ≡ s = ground (arith, good) in
          (
            λ c. cc,
            ground (arith, good),
            (
              same,
              All-imp (λ m. (m.signer == first.signer) ≡ true) (λ m. m.signer ≡ s) rest
                  (λ m h. eq_of_== m.signer first.signer h ∙ same)
                  (All-every (λ m. m.signer == first.signer) rest good),
            ),
          )
    ]

    backward :
        (¬ (first ∷ rest ≡ [])) × (¬ (s ≡ 0)) × All (λ m. m.signer ≡ s) (first ∷ rest)
        → common_signer (first ∷ rest) ≡ ok s
    backward (_, positive, (same, others)) =
        let good : every (λ m. m.signer == first.signer) rest ≡ true =
          every-All (λ m. m.signer == first.signer) rest
            (All-imp (λ m. m.signer ≡ s) (λ m. (m.signer == first.signer) ≡ true) rest
              (λ m h. rw (h, same) (==_refl s)) others) in
        ground (arith, good)
