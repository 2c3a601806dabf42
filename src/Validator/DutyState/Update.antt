-- ===== src/Validator/DutyState/Update.antt =====
-- What `OperatorState::update` leaves in the ring (anchor/message_validator/src/duty_state.rs).
use mathlib.Core.Path.{subst}
use anchor.Base.{
  ℕ, ◌%◌, ◌≤◌, ◌<◌, ◌≡◌, refl, sym, ◌∙◌, ◌⊎◌, inl, inr, Option, none, some, arith, ◌==◌, ltb,
  length, Bool-cases, Option-cases, eq_of_==, ==_refl, ne_of_==, get_elem?,
}
use anchor.Ssv.Message.{Bytes, SignedSsvMessage}
use anchor.Ssv.Consensus.{Hash256, QbftMessage}
use anchor.Validator.SignerState.{SignerState, new_signer_state, update_signer}
use anchor.Validator.DutyState.{
  OperatorState, get_signer_state, filter_slot, write_signer_state, set_signer_state,
  open_signer_state, update_operator,
}
use anchor.Validator.DutyState.Ring.{get-write_signer_state, length-write_signer_state}

-- The entry of a slot is of that slot.
filter_slot-slot :
    (slot : ℕ) (e : Option (Option SignerState)) (s : SignerState)
    → filter_slot slot e ≡ some s
    → s.slot ≡ slot
filter_slot-slot slot none s h = cc
filter_slot-slot slot (some none) s h = cc
filter_slot-slot slot (some (some t)) s h = ground arith

pub get_signer_state-slot :
    (o : OperatorState) (slot : ℕ) (s : SignerState)
    → get_signer_state o slot ≡ some s
    → s.slot ≡ slot
unfolding get_signer_state
get_signer_state-slot o slot s h =
    filter_slot-slot slot (get_elem? o.state (slot % length o.state)) s h

-- `set_signer_state` writes the same entry.
pub get-set_signer_state :
    (o : OperatorState) (slot other : ℕ) (s : SignerState)
    → get_signer_state (set_signer_state o slot s) other
      ≡ get_signer_state (write_signer_state o slot s) other
unfolding get_signer_state set_signer_state
get-set_signer_state o slot other s = refl

pub length-set_signer_state :
    (o : OperatorState) (slot : ℕ) (s : SignerState)
    → length (set_signer_state o slot s).state ≡ length o.state
unfolding set_signer_state
length-set_signer_state o slot s = length-write_signer_state o slot s

-- After a write, the slot has the entry, and another slot has no entry that it had not before.
pub record Written (o o' : OperatorState) (slot : ℕ) (s : SignerState) : Type 0 where
  pub here : get_signer_state o' slot ≡ some s
  pub elsewhere :
      (other : ℕ) (t : SignerState)
      → ¬ (slot ≡ other)
      → get_signer_state o' other ≡ some t
      → get_signer_state o other ≡ some t
  pub places : length o'.state ≡ length o.state

pub write_signer_state-Written :
    (o : OperatorState) (slot : ℕ) (s : SignerState)
    → 0 < length o.state
    → s.slot ≡ slot
    → Written o (write_signer_state o slot s) slot s
write_signer_state-Written o slot s p own = record {
  here = get-write_signer_state o slot slot s p own ∙ rw (==_refl slot) refl;
  elsewhere = λ other t n h.
      let at = sym (get-write_signer_state o slot other s p own) ∙ h in
      elim (Bool-cases (slot == other)) [
        | inl same ↦ absurd (n (eq_of_== slot other same))
        | inr different ↦ elim (Bool-cases (slot % length o.state == other % length o.state)) [
          | inl clash ↦ absurd (ground (arith, different, clash, at))
          | inr apart ↦ ground (arith, different, apart, at)
        ]
      ];
  places = length-write_signer_state o slot s;
}

-- What holds of the entry written and of all entries before holds of all entries after.
pub Written-All :
    (o o' : OperatorState) (slot : ℕ) (s : SignerState) (P : SignerState → Type 0)
    → Written o o' slot s
    → P s
    → ((other : ℕ) (t : SignerState) → get_signer_state o other ≡ some t → P t)
    → (other : ℕ) (t : SignerState) → get_signer_state o' other ≡ some t
    → P t
Written-All o o' slot s P w now before other t h = elim (Bool-cases (slot == other)) [
  | inl same ↦
      let e : get_signer_state o' slot ≡ some t = rw (eq_of_== slot other same) h in
      let x : some s ≡ some t = sym w.here ∙ e in let y : s ≡ t = cc in subst P y now
  | inr different ↦ before other t (w.elsewhere other t (ne_of_== slot other different) h)
]

Written-trans :
    (o o' o'' : OperatorState) (slot : ℕ) (s t : SignerState)
    → Written o o' slot s
    → Written o' o'' slot t
    → Written o o'' slot t
Written-trans o o' o'' slot s t v w = record {
  here = w.here;
  elsewhere = λ other u n h. v.elsewhere other u n (w.elsewhere other u n h);
  places = w.places ∙ v.places;
}

pub set_signer_state-Written :
    (o : OperatorState) (slot : ℕ) (s : SignerState)
    → 0 < length o.state
    → s.slot ≡ slot
    → Written o (set_signer_state o slot s) slot s
set_signer_state-Written o slot s p own =
    let w = write_signer_state-Written o slot s p own in
    record {
      here = get-set_signer_state o slot slot s ∙ w.here;
      elsewhere =
          λ other t n h. w.elsewhere other t n (sym (get-set_signer_state o slot other s) ∙ h);
      places = length-set_signer_state o slot s;
    }

-- The state that an update goes on with: a new one, or the one of the slot at no lower round.
pub open_signer_state-cases :
    (o : OperatorState) (slot round : ℕ)
    → (open_signer_state o slot round
        ≡ (set_signer_state o slot (new_signer_state slot round), new_signer_state slot round))
      ⊎ ((s : SignerState) × (get_signer_state o slot ≡ some s)
          × (round ≤ s.round)
          × (open_signer_state o slot round ≡ (o, s)))
unfolding open_signer_state
open_signer_state-cases o slot round = elim (Option-cases (get_signer_state o slot)) [
  | inl missing ↦ inl (rw (open_signer_state, missing) refl)
  | inr (s, found) ↦ elim (Bool-cases (ltb s.round round)) [
    | inl lower ↦ inl (rw (open_signer_state, found, lower) refl)
    | inr level ↦ inr (s, found, ground (arith, level), rw (open_signer_state, found, level) refl)
  ]
]

module _ (sha256 : Bytes → Hash256) (o : OperatorState) (m : SignedSsvMessage) (q : QbftMessage)
    (slot : ℕ) (p : 0 < length o.state) where
  -- The state that the update ends with.
  abbrev pub updated : SignerState
  updated = update_signer sha256 (open_signer_state o slot q.round).1 m q

  pub update_operator-Written : Written o (update_operator sha256 o m q slot) slot updated
  unfolding update_operator update_signer
  update_operator-Written = elim (open_signer_state-cases o slot q.round) [
    | inl fresh ↦
        let new = new_signer_state slot q.round in
        let set = set_signer_state o slot new in
        rw fresh (
          Written-trans o set (write_signer_state set slot (update_signer sha256 new m q)) slot new
            (update_signer sha256 new m q) (set_signer_state-Written o slot new p refl)
            (write_signer_state-Written set slot (update_signer sha256 new m q)
              (rw (length-set_signer_state o slot new) p) refl))
    | inr (s, found, _, kept) ↦ rw kept (
        write_signer_state-Written o slot (update_signer sha256 s m q) p
          (get_signer_state-slot o slot s found))
  ]
