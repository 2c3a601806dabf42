-- ===== src/Scenarios.antt =====
-- A run of four operators on concrete data, on which the theorems are applied.
pub mod Forks
pub mod Validation
pub mod Codecs
pub mod Run
pub mod Listeners
pub mod Rules
pub mod Examples
use anchor.Base.{
  ℕ, ◌+◌, ◌≤◌, ◌<◌, ◌≡◌, refl, inl, inr, Bool, true, false, List, [], ◌∷◌, Option, none, some,
  arith, ◌==◌, leb, if◌then◌else◌, length, is_some,
}
use anchor.Base.Maps.{lookup}
use anchor.Base.Result.{Result, ok, err, panic}
use anchor.Ssv.Message.{Bytes, SignedSsvMessage, ssv_consensus_msg_type}
use anchor.Ssv.Consensus.{
  Hash256, QbftData, QbftMessage, QbftMessageType, proposal, prepare, commit, round_change,
}
use anchor.Qbft.Types.{Completed, success, WrappedQbftMessage}
use anchor.Qbft.Config.{Config, new_with_leader_fn}
use anchor.Qbft.Instance.{Qbft}
use anchor.Qbft.Instance.Receive.{dispatch, receive}
use anchor.Qbft.Container
use anchor.Qbft.Container.{
  add_message, count_values, find_quorum, has_quorum_disregarding_root, collect_operators,
  lowest_partial_quorum_above_round, get_messages_for_round, get_quorum_of_messages,
}
use anchor.Qbft.Instance
use anchor.Qbft.Instance.{check_leader, check_committee, all_operator_ids, unique_operators}
use anchor.Qbft.Config.{config_quorum_size}
use anchor.Qbft.Types.{to_u8}
use anchor.Qbft.Instance.Validate.{
  past_round_ok, future_round_ok, validate_content, validate_signers, validate_message,
}
use anchor.Qbft.Instance.Propose.{accept_proposal, store_proposal, received_propose}
use anchor.Qbft.Instance.Commit.{
  set_aggregate_data, aggregate_commit_messages, complete_with, on_commit_quorum, count_commit,
  received_commit,
}
use anchor.Qbft.Instance.Prepare.{on_prepare_quorum, count_prepare, received_prepare}
use anchor.Qbft.Instance.Decided.{adopt_decided, received_decided}
use anchor.Qbft.Instance.Justify.{
  max_by_data_round, decode_all, check_prepare, check_single_prepare,
  is_valid_prepare_justification_for_round_and_root, check_prepares, check_prepared_round_change,
  check_round_change, check_round_changes, check_prepare_justifications,
  validate_proposal_justifications, justify_by, justify_round_change_quorum,
}
use anchor.Qbft.Instance.Rounds.{lead, start_round, set_round, start_if_sent, end_round, initial}
use anchor.Qbft.Instance.RoundChange.{
  check_round_change_justification, join_round, count_round_change, received_round_change,
}
use anchor.Qbft.Instance.Outgoing.{
  clear_full_data, bytes_of, round_change_data, get_message_data, encode_all,
  try_encode_signed_ssv_messages, new_unsigned_message, get_round_change_justifications,
  prepares_for, get_round_change_prepare_justifications,
}
use anchor.Qbft.Instance.Send.{
  first_highest_prepared, justification_of, get_prepare_justifications, send_proposal, send_prepare,
  send_commit, send_round_change,
}
use anchor.Ssv.Message.{try_to_variable_list, validate_ssv_message, new_ssv_message, set_full_data}
use anchor.Ssv.Committee.{get_f, quorum_size}
use anchor.Ssv.Round.{next}
use anchor.Ssv.Message.Aggregate.{push_all, extend, zip, insert_pair, sort_pairs, aggregate}
use anchor.Qbft.Instance.Rounds
use anchor.Qbft.Reachable.{Reach, created, received, ended, IsAdmissible}
use anchor.Qbft.Safety.{receive_all}

abbrev one_number : Bytes → Option ℕ
one_number (n ∷ []) = some n
one_number _ = none

-- The data is a number, which is its own hash.
abbrev pub numbers : QbftData ℕ
numbers = record {
  hash = λ d. d;
  as_ssz_bytes = λ d. d ∷ [];
  from_ssz_bytes = one_number;
  validate = λ d s. true;
  encode_signed = λ m. 0 ∷ [];
  decode_signed = λ b. none;
  encode_qbft = λ m. 0 ∷ [];
  decode_qbft = λ b. none;
}

abbrev pub four : List ℕ
four = 1 ∷ 2 ∷ 3 ∷ 4 ∷ []

-- Operator 2 leads every round.
unfoldable pub node : ℕ → Config
unfolding new_with_leader_fn
node operator_id = new_with_leader_fn operator_id 0 four λ op round height committee. op == 2

-- A message of the first round for the value 7.
abbrev pub vote : QbftMessageType → Bytes → List ℕ → WrappedQbftMessage
vote t full_data signers = record {
  signed_message = record {
    signatures = (0 ∷ []) ∷ [];
    operator_ids = signers;
    ssv_message = record { msg_type = ssv_consensus_msg_type; msg_id = []; msg_data = 0 ∷ [] };
    full_data = full_data;
  };
  qbft_message = record {
    qbft_message_type = t;
    height = 0;
    round = 1;
    identifier = [];
    root = 7;
    data_round = 0;
    round_change_justification = [];
    prepare_justification = [];
  };
}

abbrev pub after : (q : Qbft ℕ) → QbftMessageType → Bytes → ℕ → Qbft ℕ
after q t full_data signer = (receive numbers q (vote t full_data (signer ∷ []))).1

abbrev pub fresh : ℕ → Qbft ℕ
fresh operator_id = (Rounds.new numbers (node operator_id) 7 []).1

abbrev pub proposed : ℕ → Qbft ℕ
proposed operator_id = after (fresh operator_id) proposal (7 ∷ []) 2

abbrev pub prepared : ℕ → Qbft ℕ
prepared operator_id =
    after (after (after (proposed operator_id) prepare [] 1) prepare [] 2) prepare [] 3

abbrev pub decided : ℕ → Qbft ℕ
decided operator_id =
    after (after (after (prepared operator_id) commit [] 1) commit [] 2) commit [] 3

-- Codecs of a second round. One byte stands for the round change of an operator to round 2, two
-- for its prepare of round 1. Operators 1 and 2 prepared 7 in round 1, the others nothing.
abbrev round_change_of : ℕ → SignedSsvMessage
round_change_of op =
    let m = (vote round_change [] (op ∷ [])).signed_message in
    record m { ssv_message = record m.ssv_message { msg_data = (if leb op 2 then 2 else 3) ∷ [] } }

abbrev signed_of : Bytes → Option SignedSsvMessage
signed_of (op ∷ []) = some (round_change_of op)
signed_of (op ∷ kind ∷ []) = some (vote prepare [] (op ∷ [])).signed_message
signed_of _ = none

abbrev three_prepares : List Bytes
three_prepares = (1 ∷ 0 ∷ []) ∷ (2 ∷ 0 ∷ []) ∷ (3 ∷ 0 ∷ []) ∷ []

abbrev unprepared : QbftMessage
unprepared = record (vote round_change [] []).qbft_message { round = 2; root = 0 }

abbrev with_prepares : QbftMessage
with_prepares = record unprepared {
  root = 7;
  data_round = 1;
  round_change_justification = three_prepares;
}

abbrev qbft_of : Bytes → Option QbftMessage
qbft_of (n ∷ []) = some (
    if n == 2
    then with_prepares
    else if n == 3
    then unprepared
    else (vote prepare [] []).qbft_message)
qbft_of _ = none

abbrev pub rounds : QbftData ℕ
rounds = record numbers { decode_signed = signed_of; decode_qbft = qbft_of }

-- A proposal of 7 in round 2, justified by three round changes and by the prepares of round 1.
abbrev pub second_proposal : WrappedQbftMessage
second_proposal = record {
  signed_message = (vote proposal (7 ∷ []) (2 ∷ [])).signed_message;
  qbft_message = record (vote proposal (7 ∷ []) (2 ∷ [])).qbft_message {
    round = 2;
    round_change_justification = (3 ∷ []) ∷ (1 ∷ []) ∷ (2 ∷ []) ∷ [];
    prepare_justification = three_prepares;
  };
}

step :
    (op : ℕ) (q : Qbft ℕ) (t : QbftMessageType) (full_data : Bytes) (signer : ℕ)
    → Reach numbers (node op) q
    → Reach numbers (node op) (after q t full_data signer)
step op q t full_data signer r = received q (vote t full_data (signer ∷ [])) r (inl refl)

pub prepared-Reach : (op : ℕ) → Reach numbers (node op) (prepared op)
prepared-Reach op =
    step op _ prepare [] 3 (
      step op _ prepare [] 2
        (step op _ prepare [] 1 (step op _ proposal (7 ∷ []) 2 (created 7 []))))

pub decided-Reach : (op : ℕ) → Reach numbers (node op) (decided op)
decided-Reach op =
    step op _ commit [] 3 (step op _ commit [] 2 (step op _ commit [] 1 (prepared-Reach op)))
