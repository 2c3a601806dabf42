-- ===== src/Manager/Held.antt =====
-- What the task of anchor/qbft_manager/src/instance.rs holds: a reachable instance, then the data of a
-- decision that it took.
use mathlib.Core.Path.{subst}
use mathlib.Core.Option
use mathlib.Core.Option.{some_inj}
use anchor.Base.{
  ℕ, ◌≡◌, ap, ◌∙◌, inl, inr, List, [], ◌∷◌, ◌++◌, Option, none, some, Option-cases, Bool-cases, ltb,
  length,
}
use anchor.Base.Maps.{lookup}
use anchor.Ssv.Consensus.{Hash256, QbftData}
use anchor.Qbft.Types.{WrappedQbftMessage, Completed, timed_out, success}
use anchor.Qbft.Config.{Config}
use anchor.Qbft.Instance.{Qbft}
use anchor.Qbft.Instance.Rounds
use anchor.Qbft.Instance.Rounds.{end_round}
use anchor.Qbft.Instance.Receive.{receive, completed}
use anchor.Qbft.Instance.Invariant.{IsBacked}
use anchor.Qbft.Reachable.{Reach, created, received, ended, IsAdmissible}
use anchor.Qbft.Safety.{decision-IsBacked}
use anchor.Manager.Instance.{
  QbftInitialization, initialize, network_message, Initialized, QbftInstance, uninitialized,
  initialized, decided, RecvResult, got, round_end, closed, Effect, survived, replay,
  initialize_new, initialize_instance, receive_instance, round_ended, message_buffer_limit,
}
use anchor.Manager.Driven.{survived-state}

abbrev pub AllAdmissible : List WrappedQbftMessage → Type 0
AllAdmissible [] = Unit {0}
AllAdmissible (w ∷ ws) = IsAdmissible w × AllAdmissible ws

abbrev pub AdmissibleEvent : {D : Type 0} → RecvResult D → Type 0
AdmissibleEvent (got (initialize init)) = Unit {0}
AdmissibleEvent (got (network_message w)) = IsAdmissible w
AdmissibleEvent round_end = Unit {0}
AdmissibleEvent closed = Unit {0}

AllAdmissible-snoc :
    (ws : List WrappedQbftMessage) (w : WrappedQbftMessage)
    → AllAdmissible ws
    → IsAdmissible w
    → AllAdmissible (ws ++ w ∷ [])
AllAdmissible-snoc [] w x a = (a, tt)
AllAdmissible-snoc (v ∷ ws) w (b, x) a = (b, AllAdmissible-snoc ws w x a)

module _ {D : Type 0} (env : QbftData D) where
  -- The data of a decision that a reachable instance took, which a quorum backs.
  pub record Decision (value : D) : Type 0 where
    pub config : Config
    pub instance_state : Qbft D
    pub reachable : Reach env config instance_state
    pub hash : Hash256
    pub known : lookup hash instance_state.seen_data ≡ some value
    pub backed :
        IsBacked config instance_state.commit_container instance_state.aggregated_commit hash

  abbrev pub Backing : Completed D → Type 0
  Backing timed_out = Unit {0}
  Backing (success value) = Decision value

  -- The buffer holds admissible messages, a running instance is reachable and a result backed.
  abbrev pub Held : Option (QbftInstance D) → Type 0
  Held (some (uninitialized buffer)) = AllAdmissible buffer
  Held (some (initialized i)) = (config : Config) × Reach env config i.qbft
  Held (some (decided value)) = Backing value
  Held none = Unit {0}

  -- What a reachable instance completed with is backed.
  pub completed-Backing :
      (config : Config) (q : Qbft D) (value : Completed D)
      → Reach env config q
      → completed env q ≡ some value
      → Backing value
  unfolding completed Option.map
  completed-Backing config q timed_out r h = tt
  completed-Backing config q (success value) r h = elim (Option-cases q.completed) [
    | inl e ↦ let y : none ≡ some (success value) = rw (e, completed) at h in cc
    | inr (timed_out, e) ↦
        let y : some timed_out ≡ some (success value) = rw (e, completed) at h in cc
    | inr (success hash, e) ↦ elim (Option-cases (lookup hash q.seen_data)) [
      | inl missing ↦ let y : none ≡ some (success value) = rw (e, completed, missing) at h in cc
      | inr (found, f) ↦
          let y : some (success found) ≡ some (success value) = rw (e, completed, f) at h in
          let same : found ≡ value = cc in
          record {
            config = config;
            instance_state = q;
            reachable = r;
            hash = hash;
            known = f ∙ ap some same;
            backed = (decision-IsBacked env config q hash r e).2;
          }
    ]
  ]

  replay-Reach :
      (config : Config) (q q' : Qbft D) (ws : List WrappedQbftMessage)
      → AllAdmissible ws
      → Reach env config q
      → replay env q ws ≡ some q'
      → Reach env config q'
  replay-Reach config q q' [] x r h = subst (Reach env config) (some_inj.0 h) r
  replay-Reach config q q' (w ∷ ws) (a, x) r h = elim (Option-cases (survived (receive env q w))) [
    | inl e ↦ let y : none ≡ some q' = rw e at h in cc
    | inr (p, e) ↦
        replay-Reach config p q' ws x
          (subst (Reach env config) (survived-state (receive env q w) p e) (received q w r a))
          (rw e at h)
  ]

  initialize_new-Reach :
      (now : ℕ) (buffer : List WrappedQbftMessage) (init : QbftInitialization D) (i : Initialized D)
      → AllAdmissible buffer
      → initialize_new env now buffer init ≡ some i
      → Reach env init.config i.qbft
  unfolding initialize_new
  initialize_new-Reach now buffer init i x h =
      elim (Option-cases (survived (Rounds.new env init.config init.start_data init.message_id))) [
        | inl e ↦ let y : none ≡ some i = rw e at h in cc
        | inr (q, e) ↦ elim (Option-cases (replay env q buffer)) [
          | inl f ↦ let y : none ≡ some i = rw (e, f) at h in cc
          | inr (q', f) ↦
              let start =
                subst (Reach env init.config) (survived-state _ q e)
                  (created init.start_data init.message_id) in
              let same = ap (λ j. j.qbft) (some_inj.0 (rw (e, f) at h)) in
              subst (Reach env init.config) same (replay-Reach init.config q q' buffer x start f)
        ]
      ]

  pub initialize_instance-Held :
      (now : ℕ) (i : QbftInstance D) (init : QbftInitialization D) (next : QbftInstance D)
      (effects : List (Effect D))
      → Held (some i)
      → initialize_instance env now i init ≡ some (next, effects)
      → Held (some next)
  unfolding initialize_instance
  initialize_instance-Held now (uninitialized buffer) init next effects x h =
      elim (Option-cases (initialize_new env now buffer init)) [
        | inl e ↦ let y : none ≡ some (next, effects) = rw e at h in cc
        | inr (j, e) ↦
            let y : (initialized j, []) ≡ (next, effects) = some_inj.0 (rw e at h) in
            subst (λ o. Held (some o.0)) y (init.config, initialize_new-Reach now buffer init j x e)
      ]
  initialize_instance-Held now (initialized i) init next effects x h =
      subst (λ o. Held (some o.0)) (some_inj.0 h) x
  initialize_instance-Held now (decided value) init next effects x h =
      subst (λ o. Held (some o.0)) (some_inj.0 h) x

  pub receive_instance-Held :
      (now : ℕ) (i : QbftInstance D) (w : WrappedQbftMessage) (next : QbftInstance D)
      → Held (some i)
      → IsAdmissible w
      → receive_instance env now i w ≡ some next
      → Held (some next)
  unfolding receive_instance
  receive_instance-Held now (uninitialized buffer) w next x a h =
      elim (Bool-cases (ltb (length buffer) message_buffer_limit)) [
        | inl e ↦
            subst (λ j. Held (some j)) (some_inj.0 (rw e at h)) (AllAdmissible-snoc buffer w x a)
        | inr e ↦ subst (λ j. Held (some j)) (some_inj.0 (rw e at h)) x
      ]
  receive_instance-Held now (initialized i) w next (config, r) a h =
      elim (Option-cases (survived (receive env i.qbft w))) [
        | inl e ↦ let y : none ≡ some next = rw e at h in cc
        | inr (q, e) ↦
            subst (λ j. Held (some j)) (some_inj.0 (rw e at h))
              (config, subst (Reach env config) (survived-state _ q e) (received i.qbft w r a))
      ]
  receive_instance-Held now (decided value) w next x a h =
      subst (λ j. Held (some j)) (some_inj.0 h) x

  pub round_ended-Held :
      (now : ℕ) (i next : QbftInstance D)
      → Held (some i)
      → round_ended env now i ≡ some next
      → Held (some next)
  unfolding round_ended
  round_ended-Held now (uninitialized buffer) next x h = subst (λ j. Held (some j)) (some_inj.0 h) x
  round_ended-Held now (initialized i) next (config, r) h =
      elim (Option-cases (survived (end_round env i.qbft))) [
        | inl e ↦ let y : none ≡ some next = rw e at h in cc
        | inr (q, e) ↦
            subst (λ j. Held (some j)) (some_inj.0 (rw e at h))
              (config, subst (Reach env config) (survived-state _ q e) (ended i.qbft r))
      ]
  round_ended-Held now (decided value) next x h = subst (λ j. Held (some j)) (some_inj.0 h) x
