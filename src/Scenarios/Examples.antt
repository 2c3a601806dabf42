-- ===== src/Scenarios/Examples.antt =====
-- The theorems on the run.
use anchor.Base.{
  ℕ, ◌+◌, ◌≤◌, ◌<◌, ◌≡◌, sym, ◌∙◌, Bool-cases, refl, inl, inr, true, List, [], ◌∷◌, some, arith,
  ◌==◌, length, is_some, keep,
}
use anchor.Base.Sets.{contains}
use anchor.Ssv.Committee.{get_f, quorum_size, is_valid_committee_size}
use anchor.Ssv.Consensus.{commit}
use anchor.Qbft.Types.{success, WrappedQbftMessage}
use anchor.Qbft.Config.{config_quorum_size, new_with_leader_fn}
use anchor.Qbft.Container.Quorum.{count_root}
use anchor.Qbft.Instance.{signed_messages, has_quorum, all_operator_ids}
use anchor.Qbft.Instance.Outgoing.{get_round_change_prepare_justifications}
use anchor.Qbft.Instance.Invariant.{IsBacked, Inv}
use anchor.Qbft.Instance.Receive
use anchor.Qbft.Agreement.{voters}
use anchor.Qbft.Reachable.{Reach-Inv}
use anchor.Qbft.Safety.{
  commit_agreement, decision-IsBacked, decision_is_final, prepared_is_justified, receive_all,
}
use anchor.Base.Sets.{common}
use anchor.Ssv.Round.{usize_max}
use anchor.Ssv.Consensus.{proposal}
use anchor.Qbft.Types.{timed_out}
use anchor.Qbft.Agreement.{quorum_overlap}
use anchor.Qbft.Instance.{full}
use anchor.Qbft.Instance.Checked.{IsChecked, validate_message-IsChecked}
use anchor.Qbft.Instance.Justified.{IsJustified, validate_proposal_justifications-IsJustified}
use anchor.Qbft.Instance.Frame.{start_round-Extends}
use anchor.Qbft.Instance.Rounds
use anchor.Qbft.Instance.Rounds.{initial}
use anchor.Qbft.Safety.{commit-IsTally, round_is_monotone}
use anchor.Qbft.Timeout.{end_rounds, end_rounds-timed_out}
use anchor.Scenarios.{four, fresh, rounds, second_proposal}
use anchor.Scenarios.Run.{proposal-accepted, second-justified}
use anchor.Scenarios.{numbers, node, vote, prepared, decided, prepared-Reach, decided-Reach}
use anchor.Scenarios.Run.{
  three_commits, decided-success, decided-commits, decided-commits_3, prepared-value,
  prepared-round,
}

seven :
    (ms : List WrappedQbftMessage) (a x : ℕ)
    → ms ≡ three_commits
    → contains (all_operator_ids (signed_messages (keep (λ m. m.qbft_message.root == x) ms))) a
      ≡ true
    → x ≡ 7
unfolding all_operator_ids
seven ms a x e c = three a x (rw e at c)
  where
    three :
        (a x : ℕ)
        → contains
            (all_operator_ids
              (signed_messages (keep (λ m. m.qbft_message.root == x) three_commits)))
            a
          ≡ true
        → x ≡ 7
    three a x c = elim (Bool-cases (7 == x)) [
      | inl y ↦ ground arith
      | inr n ↦ absurd (ground (arith, rw n at c))
    ]

many_commits :
    (ms : List WrappedQbftMessage)
    → ms ≡ three_commits
    → config_quorum_size (node 1) ≤ count_root 7 ms
unfolding config_quorum_size quorum_size get_f node new_with_leader_fn
many_commits ms e = rw e (omega arith)

commit_agreement_example : ◌≡◌ {A = ℕ} 7 7
unfolding node new_with_leader_fn is_valid_committee_size get_f
commit_agreement_example =
    commit_agreement numbers (node 1) (node 3) refl (decided 1) (decided 3) (4 ∷ []) 1 7 7
      (decided-Reach 1) (decided-Reach 3) refl (omega arith)
      (λ a x y h c d. seven _ a x decided-commits c ∙ sym (seven _ a y decided-commits_3 d))
      (many_commits _ decided-commits) (many_commits _ decided-commits_3)

decision-IsBacked_example :
    is_some (Receive.completed numbers (decided 1)) ≡ true
    × is_some (decided 1).aggregated_commit ≡ true
    × IsBacked (node 1) (decided 1).commit_container (decided 1).aggregated_commit 7
decision-IsBacked_example =
    decision-IsBacked numbers (node 1) (decided 1) 7 (decided-Reach 1) decided-success

decision_is_final_example :
    ((receive_all numbers (decided 1) (vote commit [] (4 ∷ []) ∷ [])).completed ≡ some (success 7))
    × ((receive_all numbers (decided 1) (vote commit [] (4 ∷ []) ∷ [])).aggregated_commit
        ≡ (decided 1).aggregated_commit)
decision_is_final_example =
    decision_is_final numbers (decided 1) (vote commit [] (4 ∷ []) ∷ []) 7 decided-success

prepared_is_justified_example :
    has_quorum (prepared 1) (get_round_change_prepare_justifications (prepared 1)) ≡ true
prepared_is_justified_example =
    prepared_is_justified numbers (node 1) (prepared 1) 7 1 (prepared-Reach 1) prepared-value
      prepared-round

Reach-Inv_example : Inv (decided 1)
Reach-Inv_example = Reach-Inv numbers (node 1) (decided 1) (decided-Reach 1)

round_is_monotone_example :
    (prepared 1).current_round
    ≤ (receive_all numbers (prepared 1) (vote commit [] (4 ∷ []) ∷ [])).current_round
round_is_monotone_example = round_is_monotone numbers (prepared 1) (vote commit [] (4 ∷ []) ∷ [])

quorum_overlap_example :
    get_f (length four)
    < length
        (common (voters (decided 1).commit_container 1 7) (voters (decided 3).commit_container 1 7))
unfolding node new_with_leader_fn is_valid_committee_size get_f quorum_size config_quorum_size
quorum_overlap_example =
    quorum_overlap four (decided 1).commit_container (decided 3).commit_container 1 7 7 refl
      (commit-IsTally numbers (node 1) (decided 1) (decided-Reach 1))
      (commit-IsTally numbers (node 3) (decided 3) (decided-Reach 3))
      (many_commits _ decided-commits) (many_commits _ decided-commits_3)

fresh-config : (op : ℕ) → (fresh op).config ≡ node op
unfolding Rounds.new initial
fresh-config op = (start_round-Extends numbers (initial numbers (node op) 7 [])).config

max_rounds_fit : (fresh 1).config.max_rounds ≤ usize_max
unfolding node new_with_leader_fn
max_rounds_fit = rw (fresh-config 1) (omega arith)

four_rounds : (fresh 1).config.max_rounds ≤ (fresh 1).current_round + 4
unfolding node new_with_leader_fn
four_rounds = rw (fresh-config 1) (omega arith)

end_rounds-timed_out_example : (end_rounds numbers 5 (fresh 1)).completed ≡ some timed_out
end_rounds-timed_out_example = end_rounds-timed_out numbers 4 (fresh 1) max_rounds_fit four_rounds

validate_message-IsChecked_example : IsChecked (fresh 1) (vote proposal (7 ∷ []) (2 ∷ [])) 2
validate_message-IsChecked_example =
    validate_message-IsChecked numbers (fresh 1) (vote proposal (7 ∷ []) (2 ∷ []))
      (full (record { hash = 7; value = 7 })) 2 proposal-accepted

-- A proposal in round 2 with the round changes of three operators, two of which prepared a value in
-- round 1, and with the prepares of three operators.
validate_proposal_justifications-IsJustified_example :
    IsJustified rounds (fresh 1) second_proposal.qbft_message
validate_proposal_justifications-IsJustified_example =
    validate_proposal_justifications-IsJustified rounds (fresh 1) second_proposal second-justified
