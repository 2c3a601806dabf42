-- ===== src/Manager/Agreed.antt =====
-- All listeners of one QBFT instance hear one result (anchor/qbft_manager/src/instance.rs).
use mathlib.Core.Path.{subst}
use mathlib.Core.Option.{some_inj}
use mathlib.Core.List.{append-nil, append_assoc}
use anchor.Base.{
  ℕ, ◌≡◌, refl, inl, inr, List, [], ◌∷◌, ◌++◌, Option, none, some, Option-cases, Bool-cases, ltb,
  length,
}
use anchor.Ssv.Consensus.{QbftData}
use anchor.Qbft.Types.{WrappedQbftMessage, Completed, timed_out}
use anchor.Qbft.Instance.Rounds.{end_round}
use anchor.Qbft.Instance.Receive.{receive, completed}
use anchor.Manager.Instance.{
  QbftInitialization, initialize, network_message, Initialized, QbftInstance, uninitialized,
  initialized, decided, RecvResult, got, round_end, closed, Effect, answer, send_decided,
  answer_all, survived, initialize_new, initialize_instance, receive_instance, round_ended,
  decided_message, complete_if_done, recv, close, finish_turn, turn, message_buffer_limit,
}
use anchor.Manager.Answers.{Loop, begun, turned, answers}

module _ {D : Type 0} where
  -- Every result sent is the given one.
  abbrev pub AllAre : Completed D → List (Effect D) → Type 0
  AllAre value [] = Unit {0}
  AllAre value (answer l other ∷ effects) = (other ≡ value) × AllAre value effects
  AllAre value (send_decided m operators ∷ effects) = AllAre value effects

  abbrev Settled : Option (QbftInstance D) → List (Effect D) → Type 0
  Settled none effects = (value : Completed D) × AllAre value effects
  Settled (some (decided value)) effects = AllAre value effects
  Settled (some (initialized i)) effects = answers effects ≡ []
  Settled (some (uninitialized buffer)) effects = answers effects ≡ []

  AllAre-++ :
      (value : Completed D) (a b : List (Effect D))
      → AllAre value a
      → AllAre value b
      → AllAre value (a ++ b)
  AllAre-++ value [] b x y = y
  AllAre-++ value (answer l other ∷ a) b (e, x) y = (e, AllAre-++ value a b x y)
  AllAre-++ value (send_decided m operators ∷ a) b x y = AllAre-++ value a b x y

  AllAre-answer_all : (value : Completed D) (ls : List ℕ) → AllAre value (answer_all value ls)
  AllAre-answer_all value [] = tt
  AllAre-answer_all value (l ∷ ls) = (refl, AllAre-answer_all value ls)

  silent : (value : Completed D) (a : List (Effect D)) → answers a ≡ [] → AllAre value a
  silent value [] e = tt
  silent value (answer l other ∷ a) e = cc
  silent value (send_decided m operators ∷ a) e = silent value a e

  Settled-value :
      (last : Option (QbftInstance D)) (effects : List (Effect D))
      → Settled last effects
      → (value : Completed D) × AllAre value effects
  Settled-value none effects s = s
  Settled-value (some (decided value)) effects s = (value, s)
  Settled-value (some (initialized i)) effects s = (timed_out, silent timed_out effects s)
  Settled-value (some (uninitialized buffer)) effects s = (timed_out, silent timed_out effects s)

module _ {D : Type 0} (env : QbftData D) where
  AllAre-decided_message :
      (value : Completed D) (i : Initialized D) → AllAre value (decided_message env i.qbft)
  AllAre-decided_message value i = elim (Option-cases i.qbft.aggregated_commit) [
    | inl e ↦ rw e tt
    | inr (m, e) ↦ rw e tt
  ]

  complete_if_done-Settled :
      (i : QbftInstance D) (effects : List (Effect D))
      → Settled (some i) effects
      → let o = complete_if_done env i in Settled (some o.0) (effects ++ o.1)
  unfolding complete_if_done
  complete_if_done-Settled (initialized i) effects s = elim (Option-cases (completed env i.qbft)) [
    | inl e ↦ rw (e, complete_if_done, append-nil effects) s
    | inr (value, e) ↦
        let told =
          AllAre-++ value (answer_all value i.on_completed) (decided_message env i.qbft)
            (AllAre-answer_all value i.on_completed) (AllAre-decided_message value i) in
        rw (e, complete_if_done) (AllAre-++ value effects _ (silent value effects s) told)
  ]
  complete_if_done-Settled (uninitialized buffer) effects s = rw (append-nil effects) s
  complete_if_done-Settled (decided value) effects s = rw (append-nil effects) s

  initialize_instance-Settled :
      (now : ℕ) (i : QbftInstance D) (init : QbftInitialization D) (next : QbftInstance D)
      (effects more : List (Effect D))
      → Settled (some i) effects
      → initialize_instance env now i init ≡ some (next, more)
      → Settled (some next) (effects ++ more)
  unfolding initialize_instance
  initialize_instance-Settled now (uninitialized buffer) init next effects more s h =
      elim (Option-cases (initialize_new env now buffer init)) [
        | inl e ↦ let x : none ≡ some (next, more) = rw e at h in cc
        | inr (j, e) ↦
            let x : (initialized j, []) ≡ (next, more) = some_inj.0 (rw e at h) in
            subst (λ o. Settled (some o.0) (effects ++ o.1)) x (rw (append-nil effects) s)
      ]
  initialize_instance-Settled now (initialized i) init next effects more s h =
      subst (λ o. Settled (some o.0) (effects ++ o.1)) (some_inj.0 h) (rw (append-nil effects) s)
  initialize_instance-Settled now (decided value) init next effects more s h =
      subst (λ o. Settled (some o.0) (effects ++ o.1)) (some_inj.0 h)
        (AllAre-++ value effects _ s (refl, tt))

  receive_instance-Settled :
      (now : ℕ) (i : QbftInstance D) (w : WrappedQbftMessage) (next : QbftInstance D)
      (effects : List (Effect D))
      → Settled (some i) effects
      → receive_instance env now i w ≡ some next
      → Settled (some next) effects
  unfolding receive_instance
  receive_instance-Settled now (uninitialized buffer) w next effects s h =
      elim (Bool-cases (ltb (length buffer) message_buffer_limit)) [
        | inl e ↦ subst (λ j. Settled (some j) effects) (some_inj.0 (rw e at h)) s
        | inr e ↦ subst (λ j. Settled (some j) effects) (some_inj.0 (rw e at h)) s
      ]
  receive_instance-Settled now (initialized i) w next effects s h =
      elim (Option-cases (survived (receive env i.qbft w))) [
        | inl e ↦ let x : none ≡ some next = rw e at h in cc
        | inr (q, e) ↦ subst (λ j. Settled (some j) effects) (some_inj.0 (rw e at h)) s
      ]
  receive_instance-Settled now (decided value) w next effects s h =
      subst (λ j. Settled (some j) effects) (some_inj.0 h) s

  round_ended-Settled :
      (now : ℕ) (i next : QbftInstance D) (effects : List (Effect D))
      → Settled (some i) effects
      → round_ended env now i ≡ some next
      → Settled (some next) effects
  unfolding round_ended
  round_ended-Settled now (uninitialized buffer) next effects s h =
      subst (λ j. Settled (some j) effects) (some_inj.0 h) s
  round_ended-Settled now (initialized i) next effects s h =
      elim (Option-cases (survived (end_round env i.qbft))) [
        | inl e ↦ let x : none ≡ some next = rw e at h in cc
        | inr (q, e) ↦ subst (λ j. Settled (some j) effects) (some_inj.0 (rw e at h)) s
      ]
  round_ended-Settled now (decided value) next effects s h =
      subst (λ j. Settled (some j) effects) (some_inj.0 h) s

  close-Settled :
      (i : QbftInstance D) (effects : List (Effect D))
      → Settled (some i) effects
      → Settled none (effects ++ close env i)
  close-Settled (initialized i) effects s = (
    timed_out,
    AllAre-++ timed_out effects _ (silent timed_out effects s)
        (AllAre-answer_all timed_out i.on_completed),
  )
  close-Settled (uninitialized buffer) effects s =
      (timed_out, rw (append-nil effects) (silent timed_out effects s))
  close-Settled (decided value) effects s = (value, rw (append-nil effects) s)

  finished-Settled :
      (j : QbftInstance D) (effects more extra : List (Effect D)) (left : Option (QbftInstance D))
      → Settled (some j) (effects ++ more)
      → finish_turn env (j, more) ≡ (left, extra)
      → Settled left (effects ++ extra)
  finished-Settled j effects more extra left s h =
      let done = complete_if_done-Settled j (effects ++ more) s in
      subst (λ o. Settled o.0 (effects ++ o.1)) h
        (subst (Settled (some (complete_if_done env j).0))
          (append_assoc effects more (complete_if_done env j).1) done)

  turn-Settled :
      (now : ℕ) (i : QbftInstance D) (event : RecvResult D) (next : Option (QbftInstance D))
      (effects more : List (Effect D))
      → Settled (some i) effects
      → turn env now i event ≡ some (next, more)
      → Settled next (effects ++ more)
  unfolding turn
  turn-Settled now i (got (initialize init)) next effects more s h =
      elim (Option-cases (initialize_instance env now i init)) [
        | inl e ↦ let x : none ≡ some (next, more) = rw e at h in cc
        | inr ((j, first), e) ↦
            finished-Settled j effects first more next
              (initialize_instance-Settled now i init j effects first s e) (some_inj.0 (rw e at h))
      ]
  turn-Settled now i (got (network_message w)) next effects more s h =
      elim (Option-cases (receive_instance env now i w)) [
        | inl e ↦ let x : none ≡ some (next, more) = rw e at h in cc
        | inr (j, e) ↦
            finished-Settled j effects [] more next
              (rw (append-nil effects) (receive_instance-Settled now i w j effects s e))
              (some_inj.0 (rw e at h))
      ]
  turn-Settled now i round_end next effects more s h = elim (Option-cases (round_ended env now i)) [
    | inl e ↦ let x : none ≡ some (next, more) = rw e at h in cc
    | inr (j, e) ↦
        finished-Settled j effects [] more next
          (rw (append-nil effects) (round_ended-Settled now i j effects s e))
          (some_inj.0 (rw e at h))
  ]
  turn-Settled now i closed next effects more s h =
      subst (λ o. Settled o.0 (effects ++ o.1)) (some_inj.0 h) (close-Settled i effects s)

  Loop-Settled :
      (checked_add : ℕ → ℕ → Option ℕ) (asked : List ℕ) (effects : List (Effect D))
      (last : Option (QbftInstance D))
      → Loop env checked_add asked effects last
      → Settled last effects
  Loop-Settled checked_add _ _ _ begun = refl
  Loop-Settled checked_add _ _ _ (turned asked effects i now event next more run step) =
      turn-Settled now i (recv env checked_add i event) next effects more
        (Loop-Settled checked_add asked effects (some i) run) step

  -- In every run of the task there is one result that is the result of every answer: the listeners
  -- of an instance, those that ask after its decision included, never hear different results.
  pub Loop-AllAre :
      (checked_add : ℕ → ℕ → Option ℕ) (asked : List ℕ) (effects : List (Effect D))
      (last : Option (QbftInstance D))
      → Loop env checked_add asked effects last
      → (value : Completed D) × AllAre value effects
  Loop-AllAre checked_add asked effects last run =
      Settled-value last effects (Loop-Settled checked_add asked effects last run)
