-- ===== src/Validator/DutyState/Ring.antt =====
-- The ring of slots of `OperatorState` as a map from slots that forgets what collides
-- (anchor/message_validator/src/duty_state.rs).
use anchor.Base.{
  ℕ, zero, suc, ◌%◌, ◌<◌, ◌≡◌, refl, ap, ◌∙◌, List, [], ◌∷◌, ◌==◌, if◌then◌else◌, Option, none,
  some, length, get_elem?, arith, inl, inr, Bool-cases, eq_of_==, ==_refl,
}
use anchor.Validator.SignerState.{SignerState}
use anchor.Validator.DutyState.{
  OperatorState, set_elem, get_signer_state, filter_slot, write_signer_state,
}

length-set_elem {ℓ} :
    {A : Type ℓ} (xs : List A) (i : ℕ) (a : A) → length (set_elem xs i a) ≡ length xs
length-set_elem [] i a = refl
length-set_elem (x ∷ xs) zero a = refl
length-set_elem (x ∷ xs) (suc i) a = ap suc (length-set_elem xs i a)

get_elem-set_elem {ℓ} :
    {A : Type ℓ} (xs : List A) (i j : ℕ) (a : A)
    → i < length xs
    → get_elem? (set_elem xs i a) j ≡ (if i == j then some a else get_elem? xs j)
get_elem-set_elem [] i j a h = absurd (omega arith)
get_elem-set_elem (x ∷ xs) zero zero a h = refl
get_elem-set_elem (x ∷ xs) zero (suc j) a h = ground arith
get_elem-set_elem (x ∷ xs) (suc i) zero a h = ground arith
get_elem-set_elem (x ∷ xs) (suc i) (suc j) a h =
    get_elem-set_elem xs i j a (omega arith) ∙ ground arith

pub length-write_signer_state :
    (o : OperatorState) (slot : ℕ) (s : SignerState)
    → length (write_signer_state o slot s).state ≡ length o.state
unfolding write_signer_state
length-write_signer_state o slot s = length-set_elem o.state (slot % length o.state) (some s)

-- What an operator's state keeps for a slot, as a map that holds the entry just written and, of
-- the others, those that do not share its place.
abbrev pub remember : ℕ → (ℕ → Option SignerState) → ℕ → SignerState → ℕ → Option SignerState
remember places entries slot s other =
    if slot == other
    then some s
    else if slot % places == other % places
    then none
    else entries other

filter_written :
    (a b slot other : ℕ) (s : SignerState) (e : Option (Option SignerState))
    → s.slot ≡ slot
    → (slot ≡ other → a ≡ b)
    → filter_slot other (if a == b then some (some s) else e)
      ≡ (if slot == other then some s else if a == b then none else filter_slot other e)
filter_written a b slot other s e own together = elim (Bool-cases (slot == other)) [
  | inl same ↦
      let at = together (eq_of_== slot other same) in
      rw (at, ==_refl b, same) (ground (arith, own, same))
  | inr different ↦ ground (arith, own, different)
]

-- Writing the entry of a slot into a ring of at least one place refines the map: the slot has the
-- entry, slots at the same place have none, and every other slot keeps what it had.
pub get-write_signer_state :
    (o : OperatorState) (slot other : ℕ) (s : SignerState)
    → 0 < length o.state
    → s.slot ≡ slot
    → get_signer_state (write_signer_state o slot s) other
      ≡ remember (length o.state) (get_signer_state o) slot s other
unfolding get_signer_state write_signer_state
get-write_signer_state o slot other s p own =
    let places = length o.state in
    let inside : slot % places < places = omega (arith, p) in
    let at = get_elem-set_elem o.state (slot % places) (other % places) (some s) inside in
    rw (length-set_elem o.state (slot % places) (some s), at)
      (filter_written (slot % places) (other % places) slot other s
        (get_elem? o.state (other % places)) own (λ e. rw e refl))
