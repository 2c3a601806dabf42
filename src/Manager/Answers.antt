-- ===== src/Manager/Answers.antt =====
-- What the listeners of one QBFT instance hear (anchor/qbft_manager/src/instance.rs).
use mathlib.Core.Option.{some_inj}
use mathlib.Core.List.{append-nil, append_assoc}
use anchor.Base.{
  ℕ, ◌≡◌, refl, sym, ap, ◌∙◌, inl, inr, List, [], ◌∷◌, ◌++◌, Option, none, some, Option-cases,
  Bool-cases, ltb, length,
}
use anchor.Ssv.Consensus.{QbftData}
use anchor.Qbft.Types.{WrappedQbftMessage, Completed, timed_out}
use anchor.Qbft.Instance.Rounds
use anchor.Qbft.Instance.Rounds.{end_round}
use anchor.Qbft.Instance.Receive.{receive, completed}
use anchor.Manager.Instance.{
  QbftInitialization, initialize, network_message, Initialized, QbftInstance, uninitialized,
  initialized, decided, RecvResult, got, round_end, closed, Effect, answer, send_decided,
  answer_all, survived, replay, initialize_new, initialize_instance, receive_instance, round_ended,
  decided_message, complete_if_done, recv, close, finish_turn, turn, message_buffer_limit,
}

module _ {D : Type 0} where
  -- The listeners that a turn brings, those that hear a result, and those that wait.
  abbrev pub asked_by : RecvResult D → List ℕ
  asked_by (got (initialize init)) = init.on_completed ∷ []
  asked_by (got (network_message w)) = []
  asked_by round_end = []
  asked_by closed = []

  abbrev pub answered : List (Effect D) → List ℕ
  answered [] = []
  answered (answer l value ∷ effects) = l ∷ answered effects
  answered (send_decided m operators ∷ effects) = answered effects

  abbrev pub waiting : Option (QbftInstance D) → List ℕ
  waiting (some (initialized i)) = i.on_completed
  waiting (some (uninitialized message_buffer)) = []
  waiting (some (decided value)) = []
  waiting none = []

  -- The results that are sent.
  abbrev pub answers : List (Effect D) → List (Completed D)
  answers [] = []
  answers (answer l value ∷ effects) = value ∷ answers effects
  answers (send_decided m operators ∷ effects) = answers effects

-- The runs of the task, up to some turn: the listeners that asked, the effects, and the instance
-- left, none if the task has ended. The queue is closed at any time.
pub data Loop {D : Type 0} (env : QbftData D) (checked_add : ℕ → ℕ → Option ℕ)
    : List ℕ → List (Effect D) → Option (QbftInstance D) → Type 0 where
  begun : Loop env checked_add [] [] (some (uninitialized []))
  turned :
      (asked : List ℕ) (effects : List (Effect D)) (i : QbftInstance D) (now : ℕ)
      (event : RecvResult D) (next : Option (QbftInstance D)) (more : List (Effect D))
      → Loop env checked_add asked effects (some i)
      → turn env now i (recv env checked_add i event) ≡ some (next, more)
      → Loop env checked_add
          (asked ++ asked_by (recv env checked_add i event))
          (effects ++ more)
          next

module _ {D : Type 0} where
  answered-++ : (a b : List (Effect D)) → answered (a ++ b) ≡ answered a ++ answered b
  answered-++ [] b = refl
  answered-++ (answer l value ∷ a) b = ap (λ r. l ∷ r) (answered-++ a b)
  answered-++ (send_decided m operators ∷ a) b = answered-++ a b

  answered-answer_all :
      (value : Completed D) (ls : List ℕ) (rest : List (Effect D))
      → answered (answer_all value ls ++ rest) ≡ ls ++ answered rest
  answered-answer_all value [] rest = refl
  answered-answer_all value (l ∷ ls) rest = ap (λ r. l ∷ r) (answered-answer_all value ls rest)

module _ {D : Type 0} (env : QbftData D) where
  answered-decided_message : (i : Initialized D) → answered (decided_message env i.qbft) ≡ []
  answered-decided_message i = elim (Option-cases i.qbft.aggregated_commit) [
    | inl e ↦ rw e refl
    | inr (m, e) ↦ rw e refl
  ]

  -- The end of a turn answers everyone or no one.
  finish_turn-listeners :
      (i : QbftInstance D) (effects : List (Effect D))
      → let o = finish_turn env (i, effects) in
        answered o.1 ++ waiting o.0 ≡ answered effects ++ waiting (some i)
  unfolding complete_if_done
  finish_turn-listeners (initialized i) effects = elim (Option-cases (completed env i.qbft)) [
    | inl e ↦ rw (e, complete_if_done, append-nil effects) refl
    | inr (value, e) ↦
        rw
          (
            e,
            complete_if_done,
            answered-++ effects (answer_all value i.on_completed ++ decided_message env i.qbft),
            answered-answer_all value i.on_completed (decided_message env i.qbft),
            answered-decided_message i,
            append-nil i.on_completed,
            append-nil (answered effects ++ i.on_completed),
          )
          refl
  ]
  finish_turn-listeners (uninitialized message_buffer) effects = rw (append-nil effects) refl
  finish_turn-listeners (decided value) effects = rw (append-nil effects) refl

  initialize_new-listeners :
      (now : ℕ) (buffer : List WrappedQbftMessage) (init : QbftInitialization D) (i : Initialized D)
      → initialize_new env now buffer init ≡ some i
      → i.on_completed ≡ init.on_completed ∷ []
  unfolding initialize_new
  initialize_new-listeners now buffer init i h =
      elim (Option-cases (survived (Rounds.new env init.config init.start_data init.message_id))) [
        | inl e ↦ let x : none ≡ some i = rw e at h in cc
        | inr (q, e) ↦ elim (Option-cases (replay env q buffer)) [
          | inl f ↦ let x : none ≡ some i = rw (e, f) at h in cc
          | inr (q', f) ↦ ap (λ j. j.on_completed) (sym (some_inj.0 (rw (e, f) at h)))
        ]
      ]

  initialize_instance-listeners :
      (now : ℕ) (i : QbftInstance D) (init : QbftInitialization D) (next : QbftInstance D)
      (effects : List (Effect D))
      → initialize_instance env now i init ≡ some (next, effects)
      → waiting (some i) ++ init.on_completed ∷ [] ≡ answered effects ++ waiting (some next)
  unfolding initialize_instance
  initialize_instance-listeners now (uninitialized buffer) init next effects h =
      elim (Option-cases (initialize_new env now buffer init)) [
        | inl e ↦ let x : none ≡ some (next, effects) = rw e at h in cc
        | inr (j, e) ↦
            let x : (initialized j, []) ≡ (next, effects) = some_inj.0 (rw e at h) in
            sym (initialize_new-listeners now buffer init j e)
            ∙ ap (λ o. answered o.1 ++ waiting (some o.0)) x
      ]
  initialize_instance-listeners now (initialized i) init next effects h =
      ap (λ o. answered o.1 ++ waiting (some o.0)) (some_inj.0 h)
  initialize_instance-listeners now (decided value) init next effects h =
      ap (λ o. answered o.1 ++ waiting (some o.0)) (some_inj.0 h)

  receive_instance-listeners :
      (now : ℕ) (i : QbftInstance D) (w : WrappedQbftMessage) (next : QbftInstance D)
      → receive_instance env now i w ≡ some next
      → waiting (some i) ≡ waiting (some next)
  unfolding receive_instance
  receive_instance-listeners now (uninitialized buffer) w next h =
      elim (Bool-cases (ltb (length buffer) message_buffer_limit)) [
        | inl e ↦ ap (λ j. waiting (some j)) (some_inj.0 (rw e at h))
        | inr e ↦ ap (λ j. waiting (some j)) (some_inj.0 (rw e at h))
      ]
  receive_instance-listeners now (initialized i) w next h =
      elim (Option-cases (survived (receive env i.qbft w))) [
        | inl e ↦ let x : none ≡ some next = rw e at h in cc
        | inr (q, e) ↦ ap (λ j. waiting (some j)) (some_inj.0 (rw e at h))
      ]
  receive_instance-listeners now (decided value) w next h =
      ap (λ j. waiting (some j)) (some_inj.0 h)

  round_ended-listeners :
      (now : ℕ) (i next : QbftInstance D)
      → round_ended env now i ≡ some next
      → waiting (some i) ≡ waiting (some next)
  unfolding round_ended
  round_ended-listeners now (uninitialized buffer) next h =
      ap (λ j. waiting (some j)) (some_inj.0 h)
  round_ended-listeners now (initialized i) next h =
      elim (Option-cases (survived (end_round env i.qbft))) [
        | inl e ↦ let x : none ≡ some next = rw e at h in cc
        | inr (q, e) ↦ ap (λ j. waiting (some j)) (some_inj.0 (rw e at h))
      ]
  round_ended-listeners now (decided value) next h = ap (λ j. waiting (some j)) (some_inj.0 h)

  finished-listeners :
      (i next : QbftInstance D) (effects more : List (Effect D)) (left : Option (QbftInstance D))
      → finish_turn env (i, effects) ≡ (left, more)
      → answered effects ++ waiting (some i) ≡ answered more ++ waiting left
  finished-listeners i next effects more left h =
      sym (finish_turn-listeners i effects) ∙ ap (λ o. answered o.1 ++ waiting o.0) h

  close-listeners : (i : QbftInstance D) → answered (close env i) ≡ waiting (some i)
  close-listeners (initialized i) =
      ap answered (sym (append-nil (answer_all {D = D} timed_out i.on_completed)))
      ∙ answered-answer_all timed_out i.on_completed []
      ∙ append-nil i.on_completed
  close-listeners (uninitialized buffer) = refl
  close-listeners (decided value) = refl

  -- A turn answers or keeps the listeners that waited and those that it brings.
  turn-listeners :
      (now : ℕ) (i : QbftInstance D) (event : RecvResult D) (next : Option (QbftInstance D))
      (more : List (Effect D))
      → turn env now i event ≡ some (next, more)
      → waiting (some i) ++ asked_by event ≡ answered more ++ waiting next
  unfolding turn
  turn-listeners now i (got (initialize init)) next more h =
      elim (Option-cases (initialize_instance env now i init)) [
        | inl e ↦ let x : none ≡ some (next, more) = rw e at h in cc
        | inr ((j, effects), e) ↦
            initialize_instance-listeners now i init j effects e
            ∙ finished-listeners j j effects more next (some_inj.0 (rw e at h))
      ]
  turn-listeners now i (got (network_message w)) next more h =
      elim (Option-cases (receive_instance env now i w)) [
        | inl e ↦ let x : none ≡ some (next, more) = rw e at h in cc
        | inr (j, e) ↦
            append-nil (waiting (some i))
            ∙ receive_instance-listeners now i w j e
            ∙ finished-listeners j j [] more next (some_inj.0 (rw e at h))
      ]
  turn-listeners now i round_end next more h = elim (Option-cases (round_ended env now i)) [
    | inl e ↦ let x : none ≡ some (next, more) = rw e at h in cc
    | inr (j, e) ↦
        append-nil (waiting (some i))
        ∙ round_ended-listeners now i j e
        ∙ finished-listeners j j [] more next (some_inj.0 (rw e at h))
  ]
  turn-listeners now i closed next more h =
      ap (λ l. l ++ []) (sym (close-listeners i))
      ∙ ap (λ o. answered o.1 ++ waiting o.0) (some_inj.0 h)

  -- In every run of the task, the listeners that asked are, in the order in which they asked, those
  -- that were answered and then those that wait: each is answered once at most, and when the task
  -- has ended without a panic each was answered exactly once.
  pub Loop-answered :
      (checked_add : ℕ → ℕ → Option ℕ) (asked : List ℕ) (effects : List (Effect D))
      (last : Option (QbftInstance D))
      → Loop env checked_add asked effects last
      → asked ≡ answered effects ++ waiting last
  Loop-answered checked_add _ _ _ begun = refl
  Loop-answered checked_add _ _ _ (turned asked effects i now event next more run step) =
      let before = Loop-answered checked_add asked effects (some i) run in
      let e = recv env checked_add i event in
      ap (λ l. l ++ asked_by e) before
      ∙ append_assoc (answered effects) (waiting (some i)) (asked_by e)
      ∙ ap (λ l. answered effects ++ l) (turn-listeners now i e next more step)
      ∙ sym (append_assoc (answered effects) (answered more) (waiting next))
      ∙ ap (λ l. l ++ waiting next) (sym (answered-++ effects more))
