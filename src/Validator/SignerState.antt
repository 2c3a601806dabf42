-- ===== src/Validator/SignerState.antt =====
-- The state of a signer for a slot: `SignerState` of
-- anchor/message_validator/src/duty_state.rs.
use anchor.Base.{
  ℕ, ◌+◌, List, [], ◌∷◌, ◌++◌, map, Bool, not, ◌&&◌, ltb, if◌then◌else◌, Option, none, some, length,
  is_empty, keep,
}
use anchor.Base.Result.{Result, ok, err}
use anchor.Base.Sets.{contains, insert, insert_all}
use anchor.Ssv.Message.{Bytes, SignedSsvMessage}
use anchor.Ssv.Consensus.{Hash256, QbftMessage, is_proposal}
use anchor.Ssv.Codec.{to_le}
use anchor.Ssv.PartialSig.{
  PartialSignatureKind, PartialSignatureMessages, proposer_preferences_sig, request_auth,
}
use anchor.Validator.Failure.{
  ValidationFailure, no_partial_signature_messages, relayed_duplicate_message,
  too_many_distinct_signing_roots,
}
use anchor.Validator.Counts.{MessageCounts, no_messages, record_consensus_message}

-- The updates of the hasher in `CommitteeId::from(&[OperatorId])`, one after the other.
unfoldable pub committee_bytes : List ℕ → Bytes
committee_bytes [] = []
committee_bytes (id ∷ ids) = to_le 4 id ++ committee_bytes ids

-- `CommitteeId::from(&[OperatorId])`, of common/ssv_types/src/committee.rs: the digest of the
-- identifiers, each cut to 32 bits.
unfoldable pub committee_id : (Bytes → Hash256) → List ℕ → Hash256
committee_id sha256 operator_ids = sha256 (committee_bytes operator_ids)

-- `MAX_PROPOSER_PREFERENCES_DISTINCT_ROOTS`
abbrev pub max_proposer_preferences_distinct_roots : ℕ
max_proposer_preferences_distinct_roots = 4

-- `MAX_REQUEST_AUTH_DISTINCT_ROOTS`
abbrev pub max_request_auth_distinct_roots : ℕ
max_request_auth_distinct_roots = 8

pub record SigningRootBudgets : Type 0 where
  pub preferences : List Hash256
  pub auth_roots : List Hash256

pub record SignerState : Type 0 where
  pub slot : ℕ
  pub round : ℕ
  pub message_counts : MessageCounts
  pub proposal_hash : Option Hash256
  pub seen_signers : List Hash256
  pub root_budgets : Option SigningRootBudgets

-- `SignerState::new`
abbrev pub new_signer_state : ℕ → ℕ → SignerState
new_signer_state slot round = record {
  slot = slot;
  round = round;
  message_counts = no_messages;
  proposal_hash = none;
  seen_signers = [];
  root_budgets = none;
}

-- `get_or_insert_default`
abbrev pub budgets_of : Option SigningRootBudgets → SigningRootBudgets
budgets_of none = record { preferences = []; auth_roots = [] }
budgets_of (some b) = b

-- `root_budget`: the roots seen of the kind and their cap.
abbrev pub root_budget : SignerState → PartialSignatureKind → Option (List Hash256 × ℕ)
root_budget s proposer_preferences_sig =
    some ((budgets_of s.root_budgets).preferences, max_proposer_preferences_distinct_roots)
root_budget s request_auth =
    some ((budgets_of s.root_budgets).auth_roots, max_request_auth_distinct_roots)
root_budget s _ = none

-- The write through the set that `root_budget` lends.
abbrev pub set_roots : SignerState → PartialSignatureKind → List Hash256 → SignerState
set_roots s proposer_preferences_sig roots = record s {
  root_budgets = some (record (budgets_of s.root_budgets) { preferences = roots });
}
set_roots s request_auth roots = record s {
  root_budgets = some (record (budgets_of s.root_budgets) { auth_roots = roots });
}
set_roots s _ roots = s

unfoldable pub has_seen_signers : (Bytes → Hash256) → SignerState → List ℕ → Bool
has_seen_signers sha256 s operators = contains s.seen_signers (committee_id sha256 operators)

-- `SignerState::update`
unfoldable pub update_signer :
    (Bytes → Hash256) → SignerState → SignedSsvMessage → QbftMessage → SignerState
update_signer sha256 s m q =
    let signer_count = length m.operator_ids in
    record s {
      proposal_hash =
          if not (is_empty m.full_data) && is_proposal q.qbft_message_type
          then some q.root
          else s.proposal_hash;
      seen_signers =
          if ltb 1 signer_count
          then insert (committee_id sha256 m.operator_ids) s.seen_signers
          else s.seen_signers;
      message_counts = record_consensus_message s.message_counts q.qbft_message_type signer_count;
    }

-- The roots of the packet that are not recorded yet, each once.
abbrev pub new_roots : List Hash256 → PartialSignatureMessages → List Hash256
new_roots seen_roots p =
    insert_all []
      (keep (λ root. not (contains seen_roots root)) (map (λ m. m.signing_root) p.messages))

-- The test of the budget of a kind, and the state with the roots recorded.
unfoldable pub spend_roots :
    SignerState → PartialSignatureMessages → Result ValidationFailure SignerState
spend_roots s p = elim (root_budget s p.kind) [
  | none ↦ ok s
  | some (seen_roots, cap) ↦
      let added = new_roots seen_roots p in
      if is_empty p.messages
      then err no_partial_signature_messages
      else if is_empty added
      then err relayed_duplicate_message
      else if ltb cap (length seen_roots + length added)
      then err too_many_distinct_signing_roots
      else ok (set_roots s p.kind (insert_all seen_roots added))
]
