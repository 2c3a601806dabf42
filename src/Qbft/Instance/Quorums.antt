-- ===== src/Qbft/Instance/Quorums.antt =====
-- The handlers of anchor/common/qbft/src/lib.rs that act on a quorum, of prepares, of commits or of
-- signers, keep the invariant.
use anchor.Qbft.Instance.Preserved.{with_prepare-Inv, with_commit-Inv}
use anchor.Base.{
  ℕ, ◌≡◌, refl, sym, inl, inr, true, List, [], ◌∷◌, some, arith, ◌==◌, All, All-keep, is_some,
  eq_of_==,
}
use anchor.Base.Maps.{lookup, lookup-put}
use anchor.Base.Sets.{contains}
use anchor.Base.Result.{ok}
use mathlib.Core.Path.{subst}
use anchor.Qbft.Instance.{has_quorum}
use anchor.Ssv.Round.{Round}
use anchor.Ssv.Consensus.{Hash256, QbftData}
use anchor.Ssv.Message.{SignedSsvMessage}
use anchor.Qbft.Types.{WrappedQbftMessage}
use anchor.Qbft.Container
use anchor.Qbft.Container.{
  MessageContainer, add_message, get_messages_for_round, get_quorum_of_messages,
}
use anchor.Qbft.Container.Quorum.{has_quorum-some, get_quorum_of_messages_lem}
use anchor.Qbft.Instance.{Qbft, finish}
use anchor.Qbft.Instance.Frame.{Extends-put, send_commit-Extends}
use anchor.Qbft.Instance.Invariant.{Inv, Extends-Inv, IsBacked}
use anchor.Qbft.Instance.Paths.{
  with_data, with_prepare, with_commit, received_prepare_paths, count_prepare_paths,
  on_prepare_quorum_paths, received_commit_paths, count_commit_paths, on_commit_quorum_paths,
  received_decided_paths,
}
use anchor.Qbft.Instance.Prepare.{on_prepare_quorum, count_prepare, received_prepare}
use anchor.Qbft.Instance.Commit.{
  aggregate_commit_messages, set_aggregate_data, on_commit_quorum, received_commit,
}
use anchor.Qbft.Instance.Decided.{received_decided}

finish-Inv :
    {D : Type 0} (q : Qbft D) (root : Hash256) (m : SignedSsvMessage)
    → is_some (lookup root q.seen_data) ≡ true
    → IsBacked q.config q.commit_container (some m) root
    → Inv q
    → Inv (finish q root m)
finish-Inv q root m known rests i = record {
  prepare_votes = i.prepare_votes;
  commit_votes = i.commit_votes;
  round_change_votes = i.round_change_votes;
  prepared = i.prepared;
  data_known = λ h e. ground arith;
  has_aggregate = λ h e. refl;
  backed = λ h e. ground (arith, rests);
}

module _ {D : Type 0} (env : QbftData D) (q : Qbft D) where
  set_aggregate_data-known :
      (root : Hash256) (m m' : SignedSsvMessage)
      → set_aggregate_data env q root m ≡ ok m'
      → is_some (lookup root q.seen_data) ≡ true
  unfolding set_aggregate_data
  set_aggregate_data-known root m m' e = ground arith

  -- An aggregated commit carries data that the instance has.
  pub aggregate-known :
      (hash : Hash256) (ms : List WrappedQbftMessage) (m : SignedSsvMessage)
      → All (λ x. (x.qbft_message.root == hash) ≡ true) ms
      → aggregate_commit_messages env q ms ≡ ok m
      → is_some (lookup hash q.seen_data) ≡ true
  unfolding aggregate_commit_messages set_aggregate_data
  aggregate-known hash [] m a e = cc
  aggregate-known hash (x ∷ xs) m a e = ground (arith, eq_of_== x.qbft_message.root hash a.0)

  on_commit_quorum-Inv :
      (round : Round) (hash : Hash256)
      → Container.has_quorum q.commit_container round ≡ some hash
      → Inv q
      → Inv (on_commit_quorum env q round hash q.state).1
  on_commit_quorum-Inv round hash quorum i =
      elim (on_commit_quorum_paths env q round hash q.state) [
        | inl e ↦ rw e i
        | inr (m, _, agg, e) ↦ rw e (
            finish-Inv q hash m
              (aggregate-known hash (get_quorum_of_messages q.commit_container round) m
                (rw ((get_quorum_of_messages_lem q.commit_container round hash quorum).0) (
                  All-keep (λ x. x.qbft_message.root == hash)
                    (get_messages_for_round q.commit_container round)))
                agg)
              (inl (
                round,
                ground (
                  arith,
                  has_quorum-some q.commit_container round hash quorum,
                  i.commit_votes.quorum,
                ),
              ))
              i)
      ]

  pub received_decided-Inv : (w : WrappedQbftMessage) → Inv q → Inv (received_decided env q w).1
  unfolding has_quorum
  received_decided-Inv w i = elim (received_decided_paths env q w) [
    | inl e ↦ rw e i
    | inr (value, quorum, _, _, _, e) ↦ rw e (
        finish-Inv (with_data q w.qbft_message.root value) w.qbft_message.root w.signed_message
          (ground (arith, lookup-put w.qbft_message.root w.qbft_message.root value q.seen_data))
          (inr (w.signed_message, refl, ground (arith, quorum)))
          (Extends-Inv (Extends-put q w.qbft_message.root value) i))
  ]

  -- A prepare quorum of the current round makes the value the prepared one.
  on_prepare_quorum-Inv :
      (hash : Hash256)
      → Container.has_quorum q.prepare_container q.current_round ≡ some hash
      → Inv q
      → Inv (on_prepare_quorum env q hash q.state).1
  on_prepare_quorum-Inv hash quorum i = elim (on_prepare_quorum_paths env q hash q.state) [
    | inl e ↦ rw e i
    | inr (_, e) ↦ rw e (
        Extends-Inv (send_commit-Extends env _ hash) (record {
          prepare_votes = i.prepare_votes;
          commit_votes = i.commit_votes;
          round_change_votes = i.round_change_votes;
          prepared = λ v r hv hr. ground (
            arith,
            has_quorum-some q.prepare_container q.current_round hash quorum,
            i.prepare_votes.quorum,
          );
          data_known = i.data_known;
          has_aggregate = i.has_aggregate;
          backed = i.backed;
        }))
  ]

  count_prepare-Inv :
      (w : WrappedQbftMessage) → Inv q → Inv (count_prepare env q q.current_round w).1
  count_prepare-Inv w i = elim (count_prepare_paths env q 0 q.current_round w) [
    | inl e ↦ rw e i
    | inr (hash, quorum, e) ↦ rw e (on_prepare_quorum-Inv hash quorum i)
  ]

module _ {D : Type 0} (env : QbftData D) (q : Qbft D) (op : ℕ) (round : Round)
    (w : WrappedQbftMessage) (own : w.signed_message.operator_ids ≡ op ∷ [])
    (member : contains q.config.committee_members op ≡ true) (i : Inv q) where
  pub received_commit-Inv : Inv (received_commit env q op round w).1
  received_commit-Inv = elim (received_commit_paths env q op round w) [
    | inl e ↦ rw e i
    | inr (_, _, _, e) ↦ rw e (elim (count_commit_paths env q op round w) [
      | inl e' ↦ rw e' (with_commit-Inv env q op round w own member i)
      | inr (hash, quorum, e') ↦ rw e' (
          on_commit_quorum-Inv env (with_commit q op round w) round hash quorum
            (with_commit-Inv env q op round w own member i))
    ])
  ]

  pub received_prepare-Inv : round ≡ q.current_round → Inv (received_prepare env q op round w).1
  received_prepare-Inv here = elim (received_prepare_paths env q op round w) [
    | inl e ↦ rw e i
    | inr (inl e) ↦ rw e (with_prepare-Inv env q op round w own member i)
    | inr (inr (_, e)) ↦ rw e (
        subst (λ r. Inv (count_prepare env (with_prepare q op round w) r w).1) (sym here)
          (count_prepare-Inv env (with_prepare q op round w) w
            (with_prepare-Inv env q op round w own member i)))
  ]
