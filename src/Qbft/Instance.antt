-- ===== src/Qbft/Instance.antt =====
-- The state of a QBFT instance and its checks on operators: the struct `Qbft` and `check_leader`,
-- `check_committee`, `has_quorum` of anchor/common/qbft/src/lib.rs. The handlers are in the modules
-- below; each returns its result beside the state that it leaves, also where it fails.
pub mod Validate
pub mod Justify
pub mod Outgoing
pub mod Send
pub mod Rounds
pub mod Propose
pub mod Prepare
pub mod Commit
pub mod RoundChange
pub mod Decided
pub mod Receive
pub mod Frame
pub mod Paths
pub mod Checked
pub mod Invariant
pub mod Preserved
pub mod Quorums
pub mod Forward
pub mod Justified
use anchor.Base.{
  not, ◌==◌, ℕ, Bool, true, false, List, [], ◌∷◌, ◌++◌, Option, none, some, leb, length, keep, map,
}
use anchor.Base.Result.{Result, ok, err, panic}
use anchor.Base.Sets.{contains, insert_all}
use anchor.Ssv.Round.{Round}
use anchor.Ssv.Message.{Bytes, SignedSsvMessage}
use anchor.Ssv.Consensus.{Hash256}
use anchor.Qbft.Error.{QbftError}
use anchor.Qbft.Types.{
  InstanceState, Completed, complete, success, WrappedQbftMessage, UnsignedWrappedQbftMessage,
}
use anchor.Qbft.Config.{Config, config_quorum_size}
use anchor.Qbft.Container.{MessageContainer}

pub record ValidData (D : Type 0) : Type 0 where
  pub hash : Hash256
  pub value : D

pub data MessageContent (D : Type 0) : Type 0 where
  full : ValidData D → MessageContent D
  hash_only : Hash256 → MessageContent D

pub data RcJustificationOutcome (D : Type 0) : Type 0 where
  highest_prepared : ValidData D → RcJustificationOutcome D
  prepared_exists_but_data_missing : Hash256 → RcJustificationOutcome D
  no_prepared : RcJustificationOutcome D

-- `seen_data` is the source's map `data`; `sent` holds what the callback `message_sender` got, in
-- order. The data validator is a field of `QbftData`.
pub record Qbft (D : Type 0) : Type 0 where
  pub config : Config
  pub identifier : Bytes
  pub instance_height : ℕ
  pub start_data_hash : Hash256
  pub start_data : D
  pub valid_start_data : ValidData D
  pub seen_data : List (Hash256 × D)
  pub current_round : Round
  pub state : InstanceState
  pub completed : Option (Completed Hash256)
  pub propose_container : MessageContainer
  pub prepare_container : MessageContainer
  pub commit_container : MessageContainer
  pub round_change_container : MessageContainer
  pub proposal_accepted_for_current_round : Bool
  pub proposal_root : Option Hash256
  pub last_prepared_round : Option Round
  pub last_prepared_value : Option Hash256
  pub aggregated_commit : Option SignedSsvMessage
  pub sent : List UnsignedWrappedQbftMessage

-- `r?` in a handler whose state is `q`.
abbrev pub on_ok {ℓ κ μ} :
    {A : Type ℓ} {B : Type κ} {S : Type μ}
    → Result QbftError A
    → S
    → (A → Result QbftError B × S)
    → Result QbftError B × S
on_ok (ok a) q f = f a
on_ok (err e) q f = (err e, q)
on_ok panic q f = (panic, q)

module _ {D : Type 0} where
  unfoldable pub check_leader : Qbft D → ℕ → Round → Bool
  check_leader q operator_id round =
      q.config.leader_fn operator_id round q.instance_height q.config.committee_members

  unfoldable pub check_committee : Qbft D → ℕ → Bool
  check_committee q operator_id = contains q.config.committee_members operator_id

-- `flat_map(operator_ids)`
unfoldable pub all_operator_ids : List SignedSsvMessage → List ℕ
all_operator_ids [] = []
all_operator_ids (m ∷ ms) = m.operator_ids ++ all_operator_ids ms

unfoldable pub unique_operators : List ℕ → List SignedSsvMessage → List ℕ
unique_operators committee msgs = insert_all [] (keep (contains committee) (all_operator_ids msgs))

module _ {D : Type 0} where
  unfoldable pub has_quorum : Qbft D → List SignedSsvMessage → Bool
  has_quorum q msgs =
      leb (config_quorum_size q.config) (length (unique_operators q.config.committee_members msgs))

abbrev pub signed_messages : List WrappedQbftMessage → List SignedSsvMessage
signed_messages = map (λ w. w.signed_message)

-- A handler's outcome: its result and the state it leaves.
abbrev pub Outcome : Type 0 → Type 0
Outcome D = Result QbftError (Unit {0}) × Qbft D

-- `accepted_root.is_some_and(|r| r != root)`
abbrev pub other_root : Option Hash256 → Hash256 → Bool
other_root none root = false
other_root (some accepted_root) root = not (root == accepted_root)

abbrev pub is_success : Option (Completed Hash256) → Bool
is_success (some (success _)) = true
is_success _ = false

module _ {D : Type 0} where
  abbrev pub finish : Qbft D → Hash256 → SignedSsvMessage → Qbft D
  finish q root m = record q {
    aggregated_commit = some m;
    state = complete;
    completed = some (success root);
  }
