-- ===== src/Validator/DutyState.antt =====
-- The state of duties, by operator and slot: anchor/message_validator/src/duty_state.rs. A ring of
-- slots is a list; `stored_slot_count` makes it longer than 0, so that `%` never panics.
pub mod Ring
pub mod Update
use anchor.Base.{
  ℕ, zero, suc, ◌+◌, ◌-◌, ◌*◌, ◌%◌, List, [], ◌∷◌, Bool, ◌==◌, ltb, if◌then◌else◌, Option, none,
  some, is_some, is_none, length, get_elem?, keep, every,
}
use anchor.Base.Result.{Result, ok, err}
use anchor.Base.Maps.{lookup, put}
use anchor.Ssv.Message.{Bytes, SignedSsvMessage}
use anchor.Ssv.Consensus.{Hash256, QbftMessage}
use anchor.Ssv.PartialSig.{PartialSignatureMessages}
use anchor.Validator.Failure.{ValidationFailure}
use anchor.Validator.Counts.{record_partial_signature}
use anchor.Validator.SignerState.{SignerState, new_signer_state, update_signer, spend_roots}

pub record OperatorState : Type 0 where
  pub state : List (Option SignerState)
  pub max_slot : ℕ

abbrev pub repeat {ℓ} : {A : Type ℓ} → ℕ → A → List A
repeat zero a = []
repeat (suc n) a = a ∷ repeat n a

-- `state[i] = a`
abbrev pub set_elem {ℓ} : {A : Type ℓ} → List A → ℕ → A → List A
set_elem [] i a = []
set_elem (x ∷ xs) zero a = a ∷ xs
set_elem (x ∷ xs) (suc i) a = x ∷ set_elem xs i a

-- `OperatorState::new`
unfoldable pub new_operator_state : ℕ → OperatorState
new_operator_state stored_slot_count = record {
  state = repeat stored_slot_count none;
  max_slot = 0;
}

-- The entry of a slot, unless another slot has taken its place.
abbrev pub filter_slot : ℕ → Option (Option SignerState) → Option SignerState
filter_slot slot none = none
filter_slot slot (some none) = none
filter_slot slot (some (some s)) = if s.slot == slot then some s else none

unfoldable pub get_signer_state : OperatorState → ℕ → Option SignerState
get_signer_state o slot = filter_slot slot (get_elem? o.state (slot % length o.state))

unfoldable pub is_first_message_for_duty : OperatorState → ℕ → Bool
is_first_message_for_duty o slot = is_none (get_signer_state o slot)

-- `epoch.slot_iter(slots_per_epoch)`
abbrev pub slots_from : ℕ → ℕ → List ℕ
slots_from start zero = []
slots_from start (suc n) = start ∷ slots_from (start + 1) n

unfoldable pub get_duty_count : OperatorState → ℕ → ℕ → ℕ
get_duty_count o epoch slots_per_epoch = length (
    keep (λ slot. is_some (get_signer_state o slot))
      (slots_from (epoch * slots_per_epoch) slots_per_epoch))

-- The write through a reference to the entry of a slot.
unfoldable pub write_signer_state : OperatorState → ℕ → SignerState → OperatorState
write_signer_state o slot s = record o { state = set_elem o.state (slot % length o.state) (some s) }

unfoldable pub set_signer_state : OperatorState → ℕ → SignerState → OperatorState
set_signer_state o slot s = record (write_signer_state o slot s) {
  max_slot = if ltb o.max_slot slot then slot else o.max_slot;
}

-- The state that `OperatorState::update` goes on with: the one of the slot, or a new one if there
-- is none or its round is lower; and the operator's state with it in its place.
unfoldable pub open_signer_state : OperatorState → ℕ → ℕ → OperatorState × SignerState
open_signer_state o slot round =
    let fresh = new_signer_state slot round in
    elim (get_signer_state o slot) [
      | none ↦ (set_signer_state o slot fresh, fresh)
      | some s ↦ if ltb s.round round then (set_signer_state o slot fresh, fresh) else (o, s)
    ]

-- `OperatorState::update`
unfoldable pub update_operator :
    (Bytes → Hash256) → OperatorState → SignedSsvMessage → QbftMessage → ℕ → OperatorState
update_operator sha256 o m q slot =
    let (opened, s) = open_signer_state o slot q.round in
    write_signer_state opened slot (update_signer sha256 s m q)

pub record DutyState : Type 0 where
  pub operators : List (ℕ × OperatorState)
  pub stored_slot_count : ℕ

-- `DutyState::new`
abbrev pub new_duty_state : ℕ → DutyState
new_duty_state stored_slot_count = record { operators = []; stored_slot_count = stored_slot_count }

-- The state that `get_or_create_operator` lends.
unfoldable pub operator_state : DutyState → ℕ → OperatorState
operator_state d signer = elim (lookup signer d.operators) [
  | none ↦ new_operator_state d.stored_slot_count
  | some o ↦ o
]

-- A write through that reference.
abbrev pub set_operator : DutyState → ℕ → OperatorState → DutyState
set_operator d signer o = record d { operators = put signer o d.operators }

-- What `get_or_create_operator` leaves behind if nothing is written.
unfoldable pub get_or_create_operator : DutyState → ℕ → DutyState
get_or_create_operator d signer = set_operator d signer (operator_state d signer)

-- `update_for_consensus_message`, for the signers in turn.
unfoldable pub update_for_consensus_message :
    (Bytes → Hash256) → DutyState → SignedSsvMessage → QbftMessage → List ℕ → DutyState
update_for_consensus_message sha256 d m q [] = d
update_for_consensus_message sha256 d m q (signer ∷ signers) =
    update_for_consensus_message sha256
      (set_operator d signer (update_operator sha256 (operator_state d signer) m q q.height)) m q
      signers

-- `FIRST_ROUND`
abbrev pub first_round_number : ℕ
first_round_number = 1

-- The signer's state for the slot of a partial signature, made if there is none.
unfoldable pub open_partial : OperatorState → ℕ → OperatorState × SignerState
open_partial o slot =
    let fresh = new_signer_state slot first_round_number in
    elim (get_signer_state o slot) [
      | none ↦ (set_signer_state o slot fresh, fresh)
      | some s ↦ (o, s)
    ]

-- `update_for_partial_signature`; the signer's state stays made where the budget refuses.
unfoldable pub update_for_partial_signature :
    DutyState → PartialSignatureMessages → ℕ → Result ValidationFailure (Unit {0}) × DutyState
update_for_partial_signature d p signer =
    let (opened, s) = open_partial (operator_state d signer) p.slot in
    elim (spend_roots s p) [
      | Result.panic ↦ (Result.panic, set_operator d signer opened)
      | err e ↦ (err e, set_operator d signer opened)
      | ok spent ↦
          let counted = record spent {
            message_counts = record_partial_signature spent.message_counts p.kind;
          } in
          (ok tt, set_operator d signer (write_signer_state opened p.slot counted))
    ]

-- `saturating_sub` is the subtraction of ℕ.
unfoldable pub outdated : DutyState → ℕ → Bool
outdated d current_slot =
    every (λ entry. ltb entry.1.max_slot (current_slot - d.stored_slot_count)) d.operators
