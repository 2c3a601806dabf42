-- ===== src/Scenarios/Listeners.antt =====
-- A run of the task of an instance: seven buffered messages, then two that ask for the result.
use anchor.Base.{
  ℕ, ◌+◌, ◌<◌, ◌≤◌, ◌≡◌, refl, sym, ◌↔◌, List, [], ◌∷◌, ◌++◌, Option, some, arith, length, ltb,
  true,
}
use mathlib.Core.Option.{some_inj}
use anchor.Ssv.Message.{SignedSsvMessage}
use anchor.Ssv.Consensus.{proposal, prepare, commit}
use anchor.Qbft.Types.{success, WrappedQbftMessage, Completed}
use anchor.Scenarios.{numbers, node, vote, proposed, after}
use anchor.Validator.{current_estimated_round}
use anchor.Manager.Timeout.{slot_time, calculate_round_timeout, cumulative_timeout}
use anchor.Manager.Deadlines.{calculate_round_timeout-current_estimated_round}
use anchor.Manager.Instance.{
  QbftInitialization, initialize, network_message, uninitialized, decided, got, Effect, answer,
  send_decided, initialize_new, initialize_instance, receive_instance, complete_if_done, recv, turn,
  message_buffer_limit,
}
use anchor.Manager.Answers.{Loop, begun, turned, answered, waiting, Loop-answered}
use anchor.Manager.Agreed.{AllAre, Loop-AllAre}
use anchor.Manager.Run.{Event, deliver, finish_round, drive, run}
use anchor.Manager.Driven.{run-drive}
use anchor.Manager.Instance.{Initialized, initialized, round_end, round_ended}
use anchor.Qbft.Instance.Receive.{completed}
use anchor.Qbft.Container
use anchor.Qbft.Container.{
  add_message, count_values, find_quorum, has_quorum_disregarding_root, collect_operators,
  lowest_partial_quorum_above_round, get_messages_for_round, get_quorum_of_messages,
}
use anchor.Qbft.Instance
use anchor.Qbft.Instance.{check_leader, check_committee, all_operator_ids, unique_operators}
use anchor.Qbft.Config.{config_quorum_size, new_with_leader_fn}
use anchor.Qbft.Types.{to_u8}
use anchor.Qbft.Instance.Validate.{
  past_round_ok, future_round_ok, validate_content, validate_signers, validate_message,
}
use anchor.Qbft.Instance.Propose.{accept_proposal, store_proposal, received_propose}
use anchor.Qbft.Instance.Receive.{dispatch, receive}
use anchor.Qbft.Instance.Commit.{
  set_aggregate_data, aggregate_commit_messages, complete_with, on_commit_quorum, count_commit,
  received_commit,
}
use anchor.Qbft.Instance.Prepare.{on_prepare_quorum, count_prepare, received_prepare}
use anchor.Qbft.Instance.Decided.{adopt_decided, received_decided}
use anchor.Qbft.Instance.Justify.{
  max_by_data_round, decode_all, check_prepare, check_single_prepare,
  is_valid_prepare_justification_for_round_and_root, check_prepares, check_prepared_round_change,
  check_round_change, check_round_changes, check_prepare_justifications,
  validate_proposal_justifications, justify_by, justify_round_change_quorum,
}
use anchor.Qbft.Instance.Rounds
use anchor.Qbft.Instance.Rounds.{lead, start_round, set_round, start_if_sent, end_round, initial}
use anchor.Qbft.Instance.RoundChange.{
  check_round_change_justification, join_round, count_round_change, received_round_change,
}
use anchor.Qbft.Instance.Outgoing.{
  clear_full_data, bytes_of, round_change_data, get_message_data, encode_all,
  try_encode_signed_ssv_messages, new_unsigned_message, get_round_change_justifications,
  prepares_for, get_round_change_prepare_justifications,
}
use anchor.Qbft.Instance.Send.{
  first_highest_prepared, justification_of, get_prepare_justifications, send_proposal, send_prepare,
  send_commit, send_round_change,
}
use anchor.Ssv.Message.{try_to_variable_list, validate_ssv_message, new_ssv_message, set_full_data}
use anchor.Ssv.Committee.{get_f, quorum_size}
use anchor.Ssv.Round.{next}
use anchor.Ssv.Message.Aggregate.{push_all, extend, zip, insert_pair, sort_pairs, aggregate}

abbrev exact : ℕ → ℕ → Option ℕ
exact a b = some (a + b)

deadline : calculate_round_timeout exact 9 (slot_time 3000000000) ≡ some 139000000000
unfolding calculate_round_timeout cumulative_timeout
deadline = refl

calculate_round_timeout-current_estimated_round_example :
    (current_estimated_round 17 ≤ 9) ↔ (20000000000 < 139000000000)
calculate_round_timeout-current_estimated_round_example =
    calculate_round_timeout-current_estimated_round exact (λ a b t e. sym (some_inj.0 e)) 3000000000
      20000000000 9 139000000000 (omega arith) deadline

abbrev buffered : List WrappedQbftMessage
buffered =
    vote proposal (7 ∷ []) (2 ∷ [])
    ∷ vote prepare [] (1 ∷ [])
    ∷ vote prepare [] (2 ∷ [])
    ∷ vote prepare [] (3 ∷ [])
    ∷ vote commit [] (1 ∷ [])
    ∷ vote commit [] (2 ∷ [])
    ∷ vote commit [] (3 ∷ [])
    ∷ []

abbrev asking : ℕ → QbftInitialization ℕ
asking listener = record {
  start_data = 7;
  message_id = [];
  timeout_mode = slot_time 0;
  config = node 1;
  on_completed = listener;
}

abbrev aggregated : SignedSsvMessage
aggregated = record (vote commit [] (1 ∷ [])).signed_message {
  signatures = (0 ∷ []) ∷ (0 ∷ []) ∷ (0 ∷ []) ∷ [];
  operator_ids = 1 ∷ 2 ∷ 3 ∷ [];
  full_data = 7 ∷ [];
}

abbrev told : List (Effect ℕ)
told = answer 5 (success 7) ∷ send_decided aggregated (1 ∷ 2 ∷ 3 ∷ 4 ∷ []) ∷ []

-- The first listener starts the instance, which decides on the messages of the buffer.
first_asks :
    turn numbers 0 (uninitialized buffered) (got (initialize (asking 5)))
    ≡ some (some (decided (success 7)), told)
unfolding Container.new add_message count_values find_quorum Container.has_quorum
    has_quorum_disregarding_root collect_operators lowest_partial_quorum_above_round
    get_messages_for_round get_quorum_of_messages check_leader check_committee all_operator_ids
    unique_operators Instance.has_quorum config_quorum_size new_with_leader_fn to_u8 past_round_ok
    future_round_ok validate_content validate_signers validate_message accept_proposal
    store_proposal received_propose dispatch receive set_aggregate_data aggregate_commit_messages
    complete_with on_commit_quorum count_commit received_commit on_prepare_quorum count_prepare
    received_prepare adopt_decided received_decided max_by_data_round decode_all check_prepare
    check_single_prepare is_valid_prepare_justification_for_round_and_root check_prepares
    check_prepared_round_change check_round_change check_round_changes check_prepare_justifications
    validate_proposal_justifications justify_by justify_round_change_quorum lead start_round
    set_round start_if_sent end_round initial Rounds.new check_round_change_justification join_round
    count_round_change received_round_change clear_full_data bytes_of round_change_data
    get_message_data encode_all try_encode_signed_ssv_messages new_unsigned_message
    get_round_change_justifications prepares_for get_round_change_prepare_justifications
    first_highest_prepared justification_of get_prepare_justifications send_proposal send_prepare
    send_commit send_round_change try_to_variable_list validate_ssv_message new_ssv_message
    set_full_data get_f quorum_size next push_all extend zip insert_pair sort_pairs aggregate node
    turn initialize_instance initialize_new complete_if_done completed
first_asks = refl

buffering :
    (b : List WrappedQbftMessage) (w : WrappedQbftMessage)
    → ltb (length b) message_buffer_limit ≡ true
    → Loop numbers exact [] [] (some (uninitialized b))
    → Loop numbers exact [] [] (some (uninitialized (b ++ w ∷ [])))
unfolding turn receive_instance recv complete_if_done
buffering b w short run =
    turned [] [] (uninitialized b) 0 (got (network_message w)) _ [] run (rw short refl)

seven : Loop numbers exact [] [] (some (uninitialized buffered))
seven = buffering _ (vote commit [] (3 ∷ [])) refl (
    buffering _ (vote commit [] (2 ∷ [])) refl (
      buffering _ (vote commit [] (1 ∷ [])) refl (
        buffering _ (vote prepare [] (3 ∷ [])) refl (
          buffering _ (vote prepare [] (2 ∷ [])) refl (
            buffering _ (vote prepare [] (1 ∷ [])) refl
              (buffering [] (vote proposal (7 ∷ []) (2 ∷ [])) refl begun))))))

-- The second listener asks after the decision.
history :
    Loop numbers exact (5 ∷ 6 ∷ []) (told ++ answer 6 (success 7) ∷ []) (some (decided (success 7)))
unfolding recv turn initialize_instance complete_if_done
history =
    turned (5 ∷ []) told (decided (success 7)) 0 (got (initialize (asking 6)))
      (some (decided (success 7))) (answer 6 (success 7) ∷ [])
      (turned [] [] (uninitialized buffered) 0 (got (initialize (asking 5)))
        (some (decided (success 7))) told seven first_asks)
      refl

Loop-answered_example :
    5 ∷ 6 ∷ []
    ≡ answered (told ++ answer 6 (success 7) ∷ []) ++ waiting {D = ℕ} (some (decided (success 7)))
Loop-answered_example =
    Loop-answered numbers exact (5 ∷ 6 ∷ []) (told ++ answer 6 (success 7) ∷ [])
      (some (decided (success 7))) history

Loop-AllAre_example : (value : Completed ℕ) × AllAre value (told ++ answer 6 (success 7) ∷ [])
Loop-AllAre_example =
    Loop-AllAre numbers exact (5 ∷ 6 ∷ []) (told ++ answer 6 (success 7) ∷ [])
      (some (decided (success 7))) history

abbrev the_proposal : WrappedQbftMessage
the_proposal = vote proposal (7 ∷ []) (2 ∷ [])

-- The instance takes the proposal from the buffer, then a prepare, and then its round ends.
abbrev left : Initialized ℕ
left = record {
  qbft = (end_round numbers (after (proposed 1) prepare [] 1)).1;
  on_completed = 5 ∷ [];
  timeout_mode = slot_time 0;
}

abbrev before_start : List (Event ℕ)
before_start = (0, got (network_message the_proposal)) ∷ []

abbrev after_start : List (Event ℕ)
after_start = (2, got (network_message (vote prepare [] (1 ∷ [])))) ∷ (3, round_end) ∷ []

runs :
    run numbers exact
      (uninitialized [])
      (before_start ++ (1, got (initialize (asking 5))) ∷ after_start)
    ≡ some (initialized left)
unfolding Container.new add_message count_values find_quorum Container.has_quorum
    has_quorum_disregarding_root collect_operators lowest_partial_quorum_above_round
    get_messages_for_round get_quorum_of_messages check_leader check_committee all_operator_ids
    unique_operators Instance.has_quorum config_quorum_size new_with_leader_fn to_u8 past_round_ok
    future_round_ok validate_content validate_signers validate_message accept_proposal
    store_proposal received_propose dispatch receive set_aggregate_data aggregate_commit_messages
    complete_with on_commit_quorum count_commit received_commit on_prepare_quorum count_prepare
    received_prepare adopt_decided received_decided max_by_data_round decode_all check_prepare
    check_single_prepare is_valid_prepare_justification_for_round_and_root check_prepares
    check_prepared_round_change check_round_change check_round_changes check_prepare_justifications
    validate_proposal_justifications justify_by justify_round_change_quorum lead start_round
    set_round start_if_sent end_round initial Rounds.new check_round_change_justification join_round
    count_round_change received_round_change clear_full_data bytes_of round_change_data
    get_message_data encode_all try_encode_signed_ssv_messages new_unsigned_message
    get_round_change_justifications prepares_for get_round_change_prepare_justifications
    first_highest_prepared justification_of get_prepare_justifications send_proposal send_prepare
    send_commit send_round_change try_to_variable_list validate_ssv_message new_ssv_message
    set_full_data get_f quorum_size next push_all extend zip insert_pair sort_pairs aggregate node
    turn initialize_instance initialize_new complete_if_done completed recv receive_instance
    round_ended calculate_round_timeout cumulative_timeout
runs = refl

run-drive_example :
    left.qbft
    ≡ drive numbers
        (deliver the_proposal ∷ deliver (vote prepare [] (1 ∷ [])) ∷ finish_round ∷ [])
        (Rounds.new numbers (node 1) 7 []).1
run-drive_example = run-drive numbers exact before_start after_start 1 (asking 5) left tt runs
