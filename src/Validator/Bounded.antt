-- ===== src/Validator/Bounded.antt =====
-- The bounds that every state of duties keeps: counts of messages and of signing roots
-- (anchor/message_validator/src/duty_state.rs and message_counts.rs).
pub mod Consensus
pub mod Preserved
pub mod Roots
pub mod Packets
pub mod Partial
use mathlib.Core.Path.{subst}
use anchor.Base.{
  ℕ, zero, suc, ◌+◌, ◌%◌, ◌≤◌, ◌<◌, ◌≡◌, refl, sym, ap, ◌∙◌, ◌⊎◌, inl, inr, Bool, true, false, not,
  ◌&&◌, List, [], ◌∷◌, Option, none, some, arith, ◌==◌, leb, ltb, length, Bool-cases, Option-cases,
  eq_of_==, ==_refl, ne_of_==, if◌then◌else◌, get_elem?, is_empty,
}
use anchor.Base.Result.{Result, ok, err, guard-eq-ok, >>=-eq-ok}
use anchor.Ssv.Message.{Bytes, SignedSsvMessage}
use anchor.Ssv.Consensus.{
  Hash256, QbftMessage, QbftMessageType, proposal, prepare, commit, round_change, is_commit,
}
use anchor.Validator.Counts.{
  MessageCounts, validate_consensus_message_limits, record_consensus_message,
}
use anchor.Validator.SignerState.{
  SignerState, new_signer_state, update_signer, budgets_of, SigningRootBudgets,
}
use anchor.Validator.DutyState.{
  OperatorState, DutyState, operator_state, set_operator, new_duty_state, new_operator_state,
  get_signer_state, filter_slot, repeat, update_operator, open_signer_state,
  update_for_consensus_message,
}
use anchor.Validator.DutyState.Update.{
  Written, updated, update_operator-Written, open_signer_state-cases,
}
use anchor.Validator.Unchanged.{Same, operator_state-set_operator}

-- At most one message of each kind, and no more signing roots than the budgets.
pub record Bounded (s : SignerState) : Type 0 where
  pub pre : s.message_counts.pre_consensus ≤ 1
  pub proposed : s.message_counts.proposals ≤ 1
  pub prepared : s.message_counts.prepares ≤ 1
  pub committed : s.message_counts.commits ≤ 1
  pub changed : s.message_counts.round_changes ≤ 1
  pub post : s.message_counts.post_consensuses ≤ 1
  pub preferred : length (budgets_of s.root_budgets).preferences ≤ 4
  pub authorised : length (budgets_of s.root_budgets).auth_roots ≤ 8

-- Every ring has its places, and every entry of every ring is bounded.
pub record WellFormed (d : DutyState) : Type 0 where
  pub places : 0 < d.stored_slot_count
  pub rings : (signer : ℕ) → length (operator_state d signer).state ≡ d.stored_slot_count
  pub entries :
      (signer slot : ℕ) (s : SignerState)
      → get_signer_state (operator_state d signer) slot ≡ some s
      → Bounded s

length-repeat {ℓ} : {A : Type ℓ} (n : ℕ) (a : A) → length (repeat n a) ≡ n
length-repeat zero a = refl
length-repeat (suc n) a = ap suc (length-repeat n a)

filter_slot-repeat : (slot n i : ℕ) → filter_slot slot (get_elem? (repeat n none) i) ≡ none
filter_slot-repeat slot zero i = refl
filter_slot-repeat slot (suc n) zero = refl
filter_slot-repeat slot (suc n) (suc i) = filter_slot-repeat slot n i

-- A new state of duties is well-formed.
pub new_duty_state-WellFormed : (n : ℕ) → 0 < n → WellFormed (new_duty_state n)
unfolding operator_state new_operator_state get_signer_state
new_duty_state-WellFormed n p = record {
  places = p;
  rings = λ signer. length-repeat n none;
  entries = λ signer slot s h. let x = sym (filter_slot-repeat slot n _) ∙ h in cc;
}

pub Same-WellFormed : (d d' : DutyState) → Same d d' → WellFormed d → WellFormed d'
Same-WellFormed d d' same w = record {
  places = rw same.places w.places;
  rings = λ signer. rw (same.states signer, same.places) (w.rings signer);
  entries = λ signer slot s h. w.entries signer slot s (rw (same.states signer) at h);
}

pub set_operator-WellFormed :
    (d : DutyState) (signer : ℕ) (o : OperatorState)
    → WellFormed d
    → length o.state ≡ d.stored_slot_count
    → ((slot : ℕ) (s : SignerState) → get_signer_state o slot ≡ some s → Bounded s)
    → WellFormed (set_operator d signer o)
set_operator-WellFormed d signer o w l b = record {
  places = w.places;
  rings = λ other. elim (Bool-cases (signer == other)) [
    | inl same ↦ rw (operator_state-set_operator d signer other o, same) l
    | inr different ↦ rw (operator_state-set_operator d signer other o, different) (w.rings other)
  ];
  entries = λ other slot s h. elim (Bool-cases (signer == other)) [
    | inl same ↦ b slot s (rw (operator_state-set_operator d signer other o, same) at h)
    | inr different ↦
        w.entries other slot s (rw (operator_state-set_operator d signer other o, different) at h)
  ];
}

pub new_signer_state-Bounded : (slot round : ℕ) → Bounded (new_signer_state slot round)
new_signer_state-Bounded slot round = record {
  pre = omega arith;
  proposed = omega arith;
  prepared = omega arith;
  committed = omega arith;
  changed = omega arith;
  post = omega arith;
  preferred = omega arith;
  authorised = omega arith;
}
