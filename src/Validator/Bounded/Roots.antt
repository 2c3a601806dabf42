-- ===== src/Validator/Bounded/Roots.antt =====
-- The budgets of signing roots and the counts of partial signatures
-- (anchor/message_validator/src/duty_state.rs and message_counts.rs).
use mathlib.Core.Path.{subst}
use anchor.Base.{
  ℕ, ◌+◌, ◌≤◌, ◌≡◌, refl, ap, inl, inr, Bool, true, false, List, [], ◌∷◌, Option, none, some, arith,
  leb, ltb, length, is_empty, length-append, if◌then◌else◌, Bool-cases, ◌++◌,
}
use anchor.Base.Sets.{contains, insert_all}
use anchor.Base.Result.{Result, ok, err}
use anchor.Ssv.Consensus.{Hash256}
use anchor.Ssv.PartialSig.{
  PartialSignatureKind, post_consensus, randao_partial_sig, selection_proof_partial_sig,
  contribution_proofs, validator_registration_sig, voluntary_exit_sig,
  aggregator_committee_partial_sig, ptc_attester_sig, proposer_preferences_sig, request_auth,
  PartialSignatureMessages,
}
use anchor.Validator.Failure.{
  ValidationFailure, no_partial_signature_messages, relayed_duplicate_message,
  too_many_distinct_signing_roots, invalid_partial_signature_type_count,
}
use anchor.Validator.Counts.{
  MessageCounts, validate_partial_signature_limits, record_partial_signature, counter_of, Counter,
  add_one, before_consensus, after_consensus, uncounted,
}
use anchor.Validator.SignerState.{SignerState, root_budget, set_roots, spend_roots, new_roots}
use anchor.Validator.Bounded.{Bounded}
use anchor.Validator.Bounded.Consensus.{Small}

length-insert_all : (s xs : List ℕ) → length (insert_all s xs) ≤ length s + length xs
length-insert_all s [] = omega arith
length-insert_all s (x ∷ xs) = elim (Bool-cases (contains s x)) [
  | inl old ↦ rw old (omega (arith, length-insert_all s xs))
  | inr new ↦ rw new (omega (arith, length-insert_all (s ++ x ∷ []) xs, length-append s (x ∷ [])))
]

-- The state with the roots of a packet recorded is bounded, of the same slot and counts.
pub record Spent (s spent : SignerState) : Type 0 where
  pub bounded : Bounded spent
  pub slot : spent.slot ≡ s.slot
  pub counts : spent.message_counts ≡ s.message_counts

roots_of : Option (List Hash256 × ℕ) → ℕ
roots_of none = 0
roots_of (some (seen, cap)) = length seen

cap_of : Option (List Hash256 × ℕ) → ℕ
cap_of none = 0
cap_of (some (seen, cap)) = cap

set_roots-Spent :
    (s : SignerState) (kind : PartialSignatureKind) (seen added : List Hash256) (cap : ℕ)
    → Bounded s
    → root_budget s kind ≡ some (seen, cap)
    → length seen + length added ≤ cap
    → Spent s (set_roots s kind (insert_all seen added))
unfolding roots_of cap_of
set_roots-Spent s post_consensus seen added cap b e l = cc
set_roots-Spent s randao_partial_sig seen added cap b e l = cc
set_roots-Spent s selection_proof_partial_sig seen added cap b e l = cc
set_roots-Spent s contribution_proofs seen added cap b e l = cc
set_roots-Spent s validator_registration_sig seen added cap b e l = cc
set_roots-Spent s voluntary_exit_sig seen added cap b e l = cc
set_roots-Spent s aggregator_committee_partial_sig seen added cap b e l = cc
set_roots-Spent s ptc_attester_sig seen added cap b e l = cc
set_roots-Spent s proposer_preferences_sig seen added cap b e l =
    let bound : 4 ≡ cap = ap cap_of e in
    record {
      bounded = record {
        pre = b.pre;
        proposed = b.proposed;
        prepared = b.prepared;
        committed = b.committed;
        changed = b.changed;
        post = b.post;
        preferred = omega (arith, length-insert_all seen added);
        authorised = b.authorised;
      };
      slot = refl;
      counts = refl;
    }
set_roots-Spent s request_auth seen added cap b e l =
    let bound : 8 ≡ cap = ap cap_of e in
    record {
      bounded = record {
        pre = b.pre;
        proposed = b.proposed;
        prepared = b.prepared;
        committed = b.committed;
        changed = b.changed;
        post = b.post;
        preferred = b.preferred;
        authorised = omega (arith, length-insert_all seen added);
      };
      slot = refl;
      counts = refl;
    }

-- What the tests of a budget let through.
within :
    {A : Type 0} (first second third : Bool) (a b c : ValidationFailure) (s spent : A)
    → (if first then err a else if second then err b else if third then err c else ok s) ≡ ok spent
    → (third ≡ false) × (s ≡ spent)
within true second third a b c s spent h = cc
within false true third a b c s spent h = cc
within false false true a b c s spent h = cc
within false false false a b c s spent h = (refl, cc)

by_budget :
    (s spent : SignerState) (p : PartialSignatureMessages) (budget : Option (List Hash256 × ℕ))
    → Bounded s
    → root_budget s p.kind ≡ budget
    → elim budget as (λ _. Result ValidationFailure SignerState) [
      | none ↦ ok s
      | some (seen_roots, cap) ↦
          let added = new_roots seen_roots p in
          if is_empty p.messages
          then err no_partial_signature_messages
          else if is_empty added
          then err relayed_duplicate_message
          else if ltb cap (length seen_roots + length added)
          then err too_many_distinct_signing_roots
          else ok (set_roots s p.kind (insert_all seen_roots added))
    ]
      ≡ ok spent
    → Spent s spent
by_budget s spent p none b e h =
    let same : s ≡ spent = cc in
    subst (Spent s) same (record { bounded = b; slot = refl; counts = refl })
by_budget s spent p (some (seen, cap)) b e h =
    let added = new_roots seen p in
    let (fits, same) =
      within (is_empty p.messages) (is_empty added) (ltb cap (length seen + length added)) _ _ _
        (set_roots s p.kind (insert_all seen added)) spent h in
    subst (Spent s) same (set_roots-Spent s p.kind seen added cap b e (ground (arith, fits)))

pub spend_roots-Spent :
    (s spent : SignerState) (p : PartialSignatureMessages)
    → Bounded s
    → spend_roots s p ≡ ok spent
    → Spent s spent
unfolding spend_roots
spend_roots-Spent s spent p b h = by_budget s spent p (root_budget s p.kind) b refl h

-- A counter that is let through stays at most 1.
pub record_partial_signature-Small :
    (c : MessageCounts) (kind : PartialSignatureKind)
    → validate_partial_signature_limits c kind ≡ ok tt
    → Small c
    → Small (record_partial_signature c kind)
unfolding Small validate_partial_signature_limits record_partial_signature
record_partial_signature-Small c kind f s = by_counter (counter_of kind) f
  where
    by_counter :
        (k : Counter)
        → elim k as (λ _. Result ValidationFailure (Unit {0})) [
          | before_consensus ↦
              if leb 1 c.pre_consensus then err invalid_partial_signature_type_count else ok tt
          | after_consensus ↦
              if leb 1 c.post_consensuses then err invalid_partial_signature_type_count else ok tt
          | uncounted ↦ ok tt
        ]
          ≡ ok tt
        → Small (elim k as (λ _. MessageCounts) [
          | before_consensus ↦ record c { pre_consensus = add_one c.pre_consensus }
          | after_consensus ↦ record c { post_consensuses = add_one c.post_consensuses }
          | uncounted ↦ c
        ])
    by_counter before_consensus f = ground (arith, s)
    by_counter after_consensus f = ground (arith, s)
    by_counter uncounted f = s
