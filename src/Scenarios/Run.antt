-- ===== src/Scenarios/Run.antt =====
-- What the run computes to.
use anchor.Base.{◌≡◌, refl, List, [], ◌∷◌, some}
use anchor.Ssv.Consensus.{proposal, commit}
use anchor.Qbft.Types.{success, WrappedQbftMessage}
use anchor.Base.Result.{ok}
use anchor.Qbft.Instance.{full}
use anchor.Scenarios.{numbers, rounds, second_proposal, fresh, node, vote, prepared, decided}
use anchor.Qbft.Container
use anchor.Qbft.Container.{
  add_message, count_values, find_quorum, has_quorum_disregarding_root, collect_operators,
  lowest_partial_quorum_above_round, get_messages_for_round, get_quorum_of_messages,
}
use anchor.Qbft.Instance
use anchor.Qbft.Instance.{check_leader, check_committee, all_operator_ids, unique_operators}
use anchor.Qbft.Config.{config_quorum_size, new_with_leader_fn}
use anchor.Qbft.Types.{to_u8}
use anchor.Qbft.Instance.Validate.{
  past_round_ok, future_round_ok, validate_content, validate_signers, validate_message,
}
use anchor.Qbft.Instance.Propose.{accept_proposal, store_proposal, received_propose}
use anchor.Qbft.Instance.Receive.{dispatch, receive}
use anchor.Qbft.Instance.Commit.{
  set_aggregate_data, aggregate_commit_messages, complete_with, on_commit_quorum, count_commit,
  received_commit,
}
use anchor.Qbft.Instance.Prepare.{on_prepare_quorum, count_prepare, received_prepare}
use anchor.Qbft.Instance.Decided.{adopt_decided, received_decided}
use anchor.Qbft.Instance.Justify.{
  max_by_data_round, decode_all, check_prepare, check_single_prepare,
  is_valid_prepare_justification_for_round_and_root, check_prepares, check_prepared_round_change,
  check_round_change, check_round_changes, check_prepare_justifications,
  validate_proposal_justifications, justify_by, justify_round_change_quorum,
}
use anchor.Qbft.Instance.Rounds
use anchor.Qbft.Instance.Rounds.{lead, start_round, set_round, start_if_sent, end_round, initial}
use anchor.Qbft.Instance.RoundChange.{
  check_round_change_justification, join_round, count_round_change, received_round_change,
}
use anchor.Qbft.Instance.Outgoing.{
  clear_full_data, bytes_of, round_change_data, get_message_data, encode_all,
  try_encode_signed_ssv_messages, new_unsigned_message, get_round_change_justifications,
  prepares_for, get_round_change_prepare_justifications,
}
use anchor.Qbft.Instance.Send.{
  first_highest_prepared, justification_of, get_prepare_justifications, send_proposal, send_prepare,
  send_commit, send_round_change,
}
use anchor.Ssv.Message.{try_to_variable_list, validate_ssv_message, new_ssv_message, set_full_data}
use anchor.Ssv.Committee.{get_f, quorum_size}
use anchor.Ssv.Round.{next}
use anchor.Ssv.Message.Aggregate.{push_all, extend, zip, insert_pair, sort_pairs, aggregate}

-- The messages that the three voters sent.
abbrev pub three_commits : List WrappedQbftMessage
three_commits = vote commit [] (1 ∷ []) ∷ vote commit [] (2 ∷ []) ∷ vote commit [] (3 ∷ []) ∷ []

pub decided-success : (decided 1).completed ≡ some (success 7)
unfolding Container.new add_message count_values find_quorum Container.has_quorum
    has_quorum_disregarding_root collect_operators lowest_partial_quorum_above_round
    get_messages_for_round get_quorum_of_messages check_leader check_committee all_operator_ids
    unique_operators Instance.has_quorum config_quorum_size new_with_leader_fn to_u8 past_round_ok
    future_round_ok validate_content validate_signers validate_message accept_proposal
    store_proposal received_propose dispatch receive set_aggregate_data aggregate_commit_messages
    complete_with on_commit_quorum count_commit received_commit on_prepare_quorum count_prepare
    received_prepare adopt_decided received_decided max_by_data_round decode_all check_prepare
    check_single_prepare is_valid_prepare_justification_for_round_and_root check_prepares
    check_prepared_round_change check_round_change check_round_changes check_prepare_justifications
    validate_proposal_justifications justify_by justify_round_change_quorum lead start_round
    set_round start_if_sent end_round initial Rounds.new check_round_change_justification join_round
    count_round_change received_round_change clear_full_data bytes_of round_change_data
    get_message_data encode_all try_encode_signed_ssv_messages new_unsigned_message
    get_round_change_justifications prepares_for get_round_change_prepare_justifications
    first_highest_prepared justification_of get_prepare_justifications send_proposal send_prepare
    send_commit send_round_change try_to_variable_list validate_ssv_message new_ssv_message
    set_full_data get_f quorum_size next push_all extend zip insert_pair sort_pairs aggregate node
decided-success = refl

pub decided-commits : get_messages_for_round (decided 1).commit_container 1 ≡ three_commits
unfolding Container.new add_message count_values find_quorum Container.has_quorum
    has_quorum_disregarding_root collect_operators lowest_partial_quorum_above_round
    get_messages_for_round get_quorum_of_messages check_leader check_committee all_operator_ids
    unique_operators Instance.has_quorum config_quorum_size new_with_leader_fn to_u8 past_round_ok
    future_round_ok validate_content validate_signers validate_message accept_proposal
    store_proposal received_propose dispatch receive set_aggregate_data aggregate_commit_messages
    complete_with on_commit_quorum count_commit received_commit on_prepare_quorum count_prepare
    received_prepare adopt_decided received_decided max_by_data_round decode_all check_prepare
    check_single_prepare is_valid_prepare_justification_for_round_and_root check_prepares
    check_prepared_round_change check_round_change check_round_changes check_prepare_justifications
    validate_proposal_justifications justify_by justify_round_change_quorum lead start_round
    set_round start_if_sent end_round initial Rounds.new check_round_change_justification join_round
    count_round_change received_round_change clear_full_data bytes_of round_change_data
    get_message_data encode_all try_encode_signed_ssv_messages new_unsigned_message
    get_round_change_justifications prepares_for get_round_change_prepare_justifications
    first_highest_prepared justification_of get_prepare_justifications send_proposal send_prepare
    send_commit send_round_change try_to_variable_list validate_ssv_message new_ssv_message
    set_full_data get_f quorum_size next push_all extend zip insert_pair sort_pairs aggregate node
decided-commits = refl

pub decided-commits_3 : get_messages_for_round (decided 3).commit_container 1 ≡ three_commits
unfolding Container.new add_message count_values find_quorum Container.has_quorum
    has_quorum_disregarding_root collect_operators lowest_partial_quorum_above_round
    get_messages_for_round get_quorum_of_messages check_leader check_committee all_operator_ids
    unique_operators Instance.has_quorum config_quorum_size new_with_leader_fn to_u8 past_round_ok
    future_round_ok validate_content validate_signers validate_message accept_proposal
    store_proposal received_propose dispatch receive set_aggregate_data aggregate_commit_messages
    complete_with on_commit_quorum count_commit received_commit on_prepare_quorum count_prepare
    received_prepare adopt_decided received_decided max_by_data_round decode_all check_prepare
    check_single_prepare is_valid_prepare_justification_for_round_and_root check_prepares
    check_prepared_round_change check_round_change check_round_changes check_prepare_justifications
    validate_proposal_justifications justify_by justify_round_change_quorum lead start_round
    set_round start_if_sent end_round initial Rounds.new check_round_change_justification join_round
    count_round_change received_round_change clear_full_data bytes_of round_change_data
    get_message_data encode_all try_encode_signed_ssv_messages new_unsigned_message
    get_round_change_justifications prepares_for get_round_change_prepare_justifications
    first_highest_prepared justification_of get_prepare_justifications send_proposal send_prepare
    send_commit send_round_change try_to_variable_list validate_ssv_message new_ssv_message
    set_full_data get_f quorum_size next push_all extend zip insert_pair sort_pairs aggregate node
decided-commits_3 = refl

pub prepared-value : (prepared 1).last_prepared_value ≡ some 7
unfolding Container.new add_message count_values find_quorum Container.has_quorum
    has_quorum_disregarding_root collect_operators lowest_partial_quorum_above_round
    get_messages_for_round get_quorum_of_messages check_leader check_committee all_operator_ids
    unique_operators Instance.has_quorum config_quorum_size new_with_leader_fn to_u8 past_round_ok
    future_round_ok validate_content validate_signers validate_message accept_proposal
    store_proposal received_propose dispatch receive set_aggregate_data aggregate_commit_messages
    complete_with on_commit_quorum count_commit received_commit on_prepare_quorum count_prepare
    received_prepare adopt_decided received_decided max_by_data_round decode_all check_prepare
    check_single_prepare is_valid_prepare_justification_for_round_and_root check_prepares
    check_prepared_round_change check_round_change check_round_changes check_prepare_justifications
    validate_proposal_justifications justify_by justify_round_change_quorum lead start_round
    set_round start_if_sent end_round initial Rounds.new check_round_change_justification join_round
    count_round_change received_round_change clear_full_data bytes_of round_change_data
    get_message_data encode_all try_encode_signed_ssv_messages new_unsigned_message
    get_round_change_justifications prepares_for get_round_change_prepare_justifications
    first_highest_prepared justification_of get_prepare_justifications send_proposal send_prepare
    send_commit send_round_change try_to_variable_list validate_ssv_message new_ssv_message
    set_full_data get_f quorum_size next push_all extend zip insert_pair sort_pairs aggregate node
prepared-value = refl

pub prepared-round : (prepared 1).last_prepared_round ≡ some 1
unfolding Container.new add_message count_values find_quorum Container.has_quorum
    has_quorum_disregarding_root collect_operators lowest_partial_quorum_above_round
    get_messages_for_round get_quorum_of_messages check_leader check_committee all_operator_ids
    unique_operators Instance.has_quorum config_quorum_size new_with_leader_fn to_u8 past_round_ok
    future_round_ok validate_content validate_signers validate_message accept_proposal
    store_proposal received_propose dispatch receive set_aggregate_data aggregate_commit_messages
    complete_with on_commit_quorum count_commit received_commit on_prepare_quorum count_prepare
    received_prepare adopt_decided received_decided max_by_data_round decode_all check_prepare
    check_single_prepare is_valid_prepare_justification_for_round_and_root check_prepares
    check_prepared_round_change check_round_change check_round_changes check_prepare_justifications
    validate_proposal_justifications justify_by justify_round_change_quorum lead start_round
    set_round start_if_sent end_round initial Rounds.new check_round_change_justification join_round
    count_round_change received_round_change clear_full_data bytes_of round_change_data
    get_message_data encode_all try_encode_signed_ssv_messages new_unsigned_message
    get_round_change_justifications prepares_for get_round_change_prepare_justifications
    first_highest_prepared justification_of get_prepare_justifications send_proposal send_prepare
    send_commit send_round_change try_to_variable_list validate_ssv_message new_ssv_message
    set_full_data get_f quorum_size next push_all extend zip insert_pair sort_pairs aggregate node
prepared-round = refl

pub proposal-accepted :
    validate_message numbers (fresh 1) (vote proposal (7 ∷ []) (2 ∷ []))
    ≡ ok (full (record { hash = 7; value = 7 }), 2)
unfolding Container.new add_message count_values find_quorum Container.has_quorum
    has_quorum_disregarding_root collect_operators lowest_partial_quorum_above_round
    get_messages_for_round get_quorum_of_messages check_leader check_committee all_operator_ids
    unique_operators Instance.has_quorum config_quorum_size new_with_leader_fn to_u8 past_round_ok
    future_round_ok validate_content validate_signers validate_message accept_proposal
    store_proposal received_propose dispatch receive set_aggregate_data aggregate_commit_messages
    complete_with on_commit_quorum count_commit received_commit on_prepare_quorum count_prepare
    received_prepare adopt_decided received_decided max_by_data_round decode_all check_prepare
    check_single_prepare is_valid_prepare_justification_for_round_and_root check_prepares
    check_prepared_round_change check_round_change check_round_changes check_prepare_justifications
    validate_proposal_justifications justify_by justify_round_change_quorum lead start_round
    set_round start_if_sent end_round initial Rounds.new check_round_change_justification join_round
    count_round_change received_round_change clear_full_data bytes_of round_change_data
    get_message_data encode_all try_encode_signed_ssv_messages new_unsigned_message
    get_round_change_justifications prepares_for get_round_change_prepare_justifications
    first_highest_prepared justification_of get_prepare_justifications send_proposal send_prepare
    send_commit send_round_change try_to_variable_list validate_ssv_message new_ssv_message
    set_full_data get_f quorum_size next push_all extend zip insert_pair sort_pairs aggregate node
proposal-accepted = refl

pub second-justified : validate_proposal_justifications rounds (fresh 1) second_proposal ≡ ok tt
unfolding Container.new add_message count_values find_quorum Container.has_quorum
    has_quorum_disregarding_root collect_operators lowest_partial_quorum_above_round
    get_messages_for_round get_quorum_of_messages check_leader check_committee all_operator_ids
    unique_operators Instance.has_quorum config_quorum_size new_with_leader_fn to_u8 past_round_ok
    future_round_ok validate_content validate_signers validate_message accept_proposal
    store_proposal received_propose dispatch receive set_aggregate_data aggregate_commit_messages
    complete_with on_commit_quorum count_commit received_commit on_prepare_quorum count_prepare
    received_prepare adopt_decided received_decided max_by_data_round decode_all check_prepare
    check_single_prepare is_valid_prepare_justification_for_round_and_root check_prepares
    check_prepared_round_change check_round_change check_round_changes check_prepare_justifications
    validate_proposal_justifications justify_by justify_round_change_quorum lead start_round
    set_round start_if_sent end_round initial Rounds.new check_round_change_justification join_round
    count_round_change received_round_change clear_full_data bytes_of round_change_data
    get_message_data encode_all try_encode_signed_ssv_messages new_unsigned_message
    get_round_change_justifications prepares_for get_round_change_prepare_justifications
    first_highest_prepared justification_of get_prepare_justifications send_proposal send_prepare
    send_commit send_round_change try_to_variable_list validate_ssv_message new_ssv_message
    set_full_data get_f quorum_size next push_all extend zip insert_pair sort_pairs aggregate node
second-justified = refl
