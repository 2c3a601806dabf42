-- ===== src/Qbft/Timeout.antt =====
-- Ends of rounds: how an instance of anchor/common/qbft/src/lib.rs times out.
use mathlib.Core.Path.{subst}
use anchor.Base.{
  sym, ℕ, zero, suc, ◌+◌, ◌≤◌, ◌<◌, ◌≡◌, refl, ◌∙◌, ◌⊎◌, inl, inr, none, some, arith, ltb,
  Bool-cases, Option-cases,
}
use anchor.Ssv.Round.{Round, next, usize_max}
use anchor.Ssv.Consensus.{QbftData}
use anchor.Qbft.Types.{timed_out}
use anchor.Qbft.Instance.{Qbft}
use anchor.Qbft.Instance.Frame.{Extends, send_round_change-Extends, start_if_sent-Extends}
use anchor.Qbft.Instance.Rounds.{end_round, time_out}

next-some : (r s : Round) → next r ≡ some s → s ≡ r + 1
unfolding next
next-some r s e = ground arith

next-none : (r : Round) → next r ≡ none → usize_max ≤ r
unfolding next
next-none r e = ground arith

module _ {D : Type 0} (env : QbftData D) where
  pub end_round_lem :
      (q : Qbft D)
      → q.config.max_rounds ≤ usize_max
      → let q' = (end_round env q).1 in
        ((q.config.max_rounds ≤ q.current_round) × (q' ≡ time_out env q))
        ⊎ ((q.current_round < q.config.max_rounds)
            × Extends (record q { current_round = q.current_round + 1 }) q')
  unfolding end_round
  end_round_lem q fits = elim (Option-cases (next q.current_round)) [
    | inl e ↦ inl (omega (arith, next-none q.current_round e), rw (e, end_round) refl)
    | inr (r, e) ↦ elim (Bool-cases (ltb q.config.max_rounds r)) [
      | inl late ↦ inl (ground (arith, next-some q.current_round r e), rw (e, end_round, late) refl)
      | inr more ↦
          let x = start_if_sent-Extends env _ _ (send_round_change-Extends env _ 0) in
          inr (
            ground (arith, next-some q.current_round r e),
            rw (e, end_round, more)
                (record {
                  config = x.config;
                  height = x.height;
                  proposals = x.proposals;
                  prepares = x.prepares;
                  commits = x.commits;
                  round_changes = x.round_changes;
                  prepared_value = x.prepared_value;
                  prepared_round = x.prepared_round;
                  decision = x.decision;
                  aggregate = x.aggregate;
                  round = x.round ∙ next-some q.current_round r e;
                  known = x.known;
                }),
          )
    ]
  ]

  -- The round ends n times.
  abbrev pub end_rounds : ℕ → Qbft D → Qbft D
  end_rounds Prim.Native.Nat.zero q = q
  end_rounds (Prim.Native.Nat.suc n) q = end_rounds n (end_round env q).1

  -- An instance whose rounds only end has timed out once the ends go past the last round.
  pub end_rounds-timed_out :
      (n : ℕ) (q : Qbft D)
      → q.config.max_rounds ≤ usize_max
      → q.config.max_rounds ≤ q.current_round + n
      → (end_rounds (suc n) q).completed ≡ some timed_out
  end_rounds-timed_out zero q fits past = elim (end_round_lem q fits) [
    | inl (_, e) ↦ rw e refl
    | inr rest ↦ absurd (omega (arith, rest.0))
  ]
  end_rounds-timed_out (suc n) q fits past = elim (end_round_lem q fits) [
    | inl (late, e) ↦
        subst (λ x. (end_rounds (suc n) x).completed ≡ some timed_out) (sym e)
          (end_rounds-timed_out n (time_out env q) fits (omega arith))
    | inr (early, x) ↦
        end_rounds-timed_out n (end_round env q).1 (rw x.config fits)
          (rw (x.config, x.round) (omega arith))
  ]
