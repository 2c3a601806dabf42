-- ===== src/Scenarios/Codecs.antt =====
-- The theorems on codecs, rings and subnets, on concrete data.
use mathlib.Core.List.{Permᴰ}
use anchor.Base.{ℕ, ◌≡◌, ◌-◌, refl, ◌↔◌, [], ◌∷◌, some, arith, length}
use anchor.Base.Result.{ok}
use anchor.Ssv.Message.{Bytes}
use anchor.Ssv.MessageId.{
  committee, for_committee, zeros, new_message_id, message_id_domain, message_id_role,
  message_id_duty_executor, decode_message_id, encode_message_id,
}
use anchor.Ssv.MessageId.Slots.{new_message_id_lem}
use anchor.Ssv.PartialSig.{request_auth, decode_kind, encode_kind}
use anchor.Ssv.PartialSig.Kinds.{decode_kind_iff}
use anchor.Subnet.{from_operators}
use anchor.Subnet.Range.{from_operators-Perm}
use anchor.Validator.SignerState.{SignerState, new_signer_state}
use anchor.Validator.DutyState.{
  OperatorState, new_operator_state, get_signer_state, write_signer_state,
}
use anchor.Validator.DutyState.Ring.{get-write_signer_state, remember}

abbrev domain : Bytes
domain = 1 ∷ 2 ∷ 3 ∷ 4 ∷ []

new_message_id_lem_example :
    let id = new_message_id domain committee (for_committee (zeros 32)) in
    (decode_message_id (encode_message_id id) ≡ ok id)
    × (message_id_domain id ≡ domain)
    × (message_id_role id ≡ some committee)
    × (message_id_duty_executor some id ≡ some (for_committee (zeros 32)))
new_message_id_lem_example =
    new_message_id_lem some domain committee (for_committee (zeros 32)) (refl, refl, refl)
      (λ key e. refl)

decode_kind_iff_example :
    (decode_kind (9 ∷ 0 ∷ 0 ∷ 0 ∷ 0 ∷ 0 ∷ 0 ∷ 0 ∷ []) ≡ ok request_auth)
    ↔ (9 ∷ 0 ∷ 0 ∷ 0 ∷ 0 ∷ 0 ∷ 0 ∷ 0 ∷ [] ≡ encode_kind request_auth)
decode_kind_iff_example =
    decode_kind_iff (9 ∷ 0 ∷ 0 ∷ 0 ∷ 0 ∷ 0 ∷ 0 ∷ 0 ∷ []) request_auth (ground arith)

-- The slots 3 and 8 share a place in a ring of 5.
abbrev ring : OperatorState
ring = write_signer_state (new_operator_state 5) 3 (new_signer_state 3 1)

abbrev entry : SignerState
entry = new_signer_state 8 1

get-write_signer_state_example :
    get_signer_state (write_signer_state ring 8 entry) 3
    ≡ remember 5 (get_signer_state ring) 8 entry 3
unfolding write_signer_state new_operator_state
get-write_signer_state_example = get-write_signer_state ring 8 3 entry (omega arith) refl

from_operators-Perm_example :
    from_operators length (2 ∷ 1 ∷ []) 128 ≡ from_operators length (1 ∷ 2 ∷ []) 128
from_operators-Perm_example =
    from_operators-Perm length (2 ∷ 1 ∷ []) (1 ∷ 2 ∷ []) 128 (Permᴰ.swap refl refl)

-- A digest that falls from operator to operator.
abbrev spread : Bytes → ℕ
spread [] = 1000
spread (b ∷ bs) = 1000 - b
