-- ===== src/Ssv/Codec/Roundtrip.antt =====
-- The codec of the message types of anchor/common/ssv_types/src/consensus.rs, both ways round.
use anchor.Base.{
  ℕ, zero, suc, ◌+◌, ◌*◌, ◌/◌, ◌%◌, ◌<◌, ◌≡◌, refl, sym, ap, ◌∙◌, ◌↔◌, [], ◌∷◌, arith, ◌==◌, length,
  All, Bool-cases, inl, inr, eq_of_==,
}
use anchor.Base.Result.{ok}
use anchor.Ssv.Message.{Bytes}
use anchor.Ssv.Consensus.{QbftMessageType, proposal, prepare, commit, round_change}
use anchor.Ssv.Codec.{
  to_le, from_le, encode_qbft_message_type, decode_qbft_message_type, qbft_message_type_of,
  qbft_message_type_value,
}

-- Every entry is a byte.
abbrev pub AreBytes : Bytes → Type 0
AreBytes = All (λ b. b < 256)

pub length-to_le : (n value : ℕ) → length (to_le n value) ≡ n
length-to_le zero value = refl
length-to_le (suc n) value = ap suc (length-to_le n (value / 256))

-- The bytes of a number that bytes spell are those bytes.
pub to_le-from_le : (bs : Bytes) → AreBytes bs → to_le (length bs) (from_le bs) ≡ bs
to_le-from_le [] h = refl
to_le-from_le (b ∷ bs) h =
    let low : (b + 256 * from_le bs) % 256 ≡ b = omega (arith, h.0) in
    let high : (b + 256 * from_le bs) / 256 ≡ from_le bs = omega (arith, h.0) in
    rw (low, high) (ap (λ rest. b ∷ rest) (to_le-from_le bs h.1))

value_of_ok :
    (value : ℕ) (t : QbftMessageType)
    → qbft_message_type_of value ≡ ok t
    → value ≡ qbft_message_type_value t
value_of_ok value proposal e = ground arith
value_of_ok value prepare e = ground arith
value_of_ok value commit e = ground arith
value_of_ok value round_change e = ground arith

decode-encode : (t : QbftMessageType) → decode_qbft_message_type (encode_qbft_message_type t) ≡ ok t
unfolding decode_qbft_message_type encode_qbft_message_type
decode-encode proposal = refl
decode-encode prepare = refl
decode-encode commit = refl
decode-encode round_change = refl

-- Bytes decode to a message type exactly if they are the encoding of that type.
decode_qbft_message_type_iff :
    (bytes : Bytes) (t : QbftMessageType)
    → AreBytes bytes
    → (decode_qbft_message_type bytes ≡ ok t) ↔ (bytes ≡ encode_qbft_message_type t)
unfolding decode_qbft_message_type encode_qbft_message_type
decode_qbft_message_type_iff bytes t h = (forward, λ e. rw e (decode-encode t))
  where
    forward : decode_qbft_message_type bytes ≡ ok t → bytes ≡ encode_qbft_message_type t
    forward e = elim (Bool-cases (length bytes == 8)) [
      | inr bad ↦ absurd (ground (arith, bad))
      | inl good ↦
          let v = value_of_ok (from_le bytes) t (ground (arith, good)) in
          sym (to_le-from_le bytes h) ∙ rw (eq_of_== (length bytes) 8 good, v) refl
    ]
