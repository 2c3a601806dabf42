-- ===== src/Manager/Driven.antt =====
-- What the task of anchor/qbft_manager/src/instance.rs does to its QBFT instance.
use mathlib.Core.Path.{subst}
use mathlib.Core.Option.{some_inj}
use mathlib.Core.List.{append-nil, append_assoc}
use anchor.Base.{
  ℕ, zero, suc, ◌+◌, ◌≡◌, refl, sym, ap, ◌∙◌, ◌⊎◌, inl, inr, true, false, List, [], ◌∷◌, ◌++◌,
  Option, none, some, Option-cases, ltb, length, length-append, map, take, arith,
}
use anchor.Base.Result.{ok, err, panic}
use anchor.Ssv.Consensus.{QbftData}
use anchor.Qbft.Types.{WrappedQbftMessage, Completed}
use anchor.Qbft.Instance.{Qbft, Outcome}
use anchor.Qbft.Instance.Rounds
use anchor.Qbft.Instance.Rounds.{end_round}
use anchor.Qbft.Instance.Receive.{receive, completed}
use anchor.Manager.Timeout.{calculate_round_timeout}
use anchor.Manager.Instance.{
  QbftInitialization, initialize, network_message, Initialized, QbftInstance, uninitialized,
  initialized, decided, RecvResult, got, round_end, closed, Effect, survived, replay,
  initialize_new, initialize_instance, receive_instance, round_ended, complete_if_done, finish_turn,
  recv, turn, message_buffer_limit,
}
use anchor.Manager.Run.{
  Event, Operation, deliver, finish_round, messages, operations, Uninitializing, onward, drive, run,
}

module _ {D : Type 0} where
  pub survived-state : (o : Outcome D) (q : Qbft D) → survived o ≡ some q → o.1 ≡ q
  survived-state (panic, p) q h = cc
  survived-state (ok a, p) q h = some_inj.0 h
  survived-state (err e, p) q h = some_inj.0 h

module _ {D : Type 0} (env : QbftData D) (checked_add : ℕ → ℕ → Option ℕ) where
  drive-++ :
      (a b : List Operation) (q : Qbft D) → drive env (a ++ b) q ≡ drive env b (drive env a q)
  drive-++ [] b q = refl
  drive-++ (deliver w ∷ a) b q = drive-++ a b (receive env q w).1
  drive-++ (finish_round ∷ a) b q = drive-++ a b (end_round env q).1

  replay-drive :
      (q q' : Qbft D) (ws : List WrappedQbftMessage)
      → replay env q ws ≡ some q'
      → q' ≡ drive env (map deliver ws) q
  replay-drive q q' [] h = sym (some_inj.0 h)
  replay-drive q q' (w ∷ ws) h = elim (Option-cases (survived (receive env q w))) [
    | inl e ↦ let y : none ≡ some q' = rw e at h in cc
    | inr (p, e) ↦
        replay-drive p q' ws (rw e at h)
        ∙ ap (drive env (map deliver ws)) (sym (survived-state (receive env q w) p e))
  ]

  initialize_new-drive :
      (now : ℕ) (buffer : List WrappedQbftMessage) (init : QbftInitialization D) (i : Initialized D)
      → initialize_new env now buffer init ≡ some i
      → i.qbft
        ≡ drive env
            (map deliver buffer)
            (Rounds.new env init.config init.start_data init.message_id).1
  unfolding initialize_new
  initialize_new-drive now buffer init i h =
      let start = Rounds.new env init.config init.start_data init.message_id in
      elim (Option-cases (survived start)) [
        | inl e ↦ let y : none ≡ some i = rw e at h in cc
        | inr (q, e) ↦ elim (Option-cases (replay env q buffer)) [
          | inl f ↦ let y : none ≡ some i = rw (e, f) at h in cc
          | inr (q', f) ↦
              ap (λ j. j.qbft) (sym (some_inj.0 (rw (e, f) at h)))
              ∙ replay-drive q q' buffer f
              ∙ ap (drive env (map deliver buffer)) (sym (survived-state start q e))
        ]
      ]

  -- Where the deadline overflows the task takes the queue for closed.
  pub recv_cases :
      (i : Initialized D) (event : RecvResult D)
      → (recv env checked_add (initialized i) event ≡ event)
        ⊎ (recv env checked_add (initialized i) event ≡ closed)
  unfolding recv
  recv_cases i event =
      elim (Option-cases
        (calculate_round_timeout checked_add i.qbft.current_round i.timeout_mode)) [
          | inl e ↦ inr (rw (e, recv) refl)
          | inr (deadline, e) ↦ inl (rw (e, recv) refl)
        ]

  -- A turn that leaves an instance received what came.
  received_event :
      (now : ℕ) (i : Initialized D) (event : RecvResult D)
      (rest : QbftInstance D → Option (QbftInstance D)) (k : QbftInstance D)
      → onward (turn env now (initialized i) (recv env checked_add (initialized i) event)) rest
        ≡ some k
      → onward (turn env now (initialized i) event) rest ≡ some k
  unfolding turn
  received_event now i event rest k h =
      let after = λ (e : RecvResult D). onward (turn env now (initialized i) e) rest in
      elim (recv_cases i event) [
        | inl e ↦ subst (λ x. after x ≡ some k) e h
        | inr e ↦ let y : none ≡ some k = subst (λ x. after x ≡ some k) e h in cc
      ]

  decided_stays :
      (value : Completed D) (events : List (Event D)) (k : Initialized D)
      → ¬ (run env checked_add (decided value) events ≡ some (initialized k))
  unfolding turn recv initialize_instance receive_instance round_ended complete_if_done
  decided_stays value [] k h = let y : decided value ≡ initialized k = some_inj.0 h in cc
  decided_stays value ((now, got (initialize init)) ∷ events) k h = decided_stays value events k h
  decided_stays value ((now, got (network_message w)) ∷ events) k h = decided_stays value events k h
  decided_stays value ((now, round_end) ∷ events) k h = decided_stays value events k h
  decided_stays value ((now, closed) ∷ events) k h = cc

  -- A turn that leaves the instance running did not find it completed.
  still_running :
      (i k : Initialized D) (effects : List (Effect D)) (events : List (Event D))
      → onward (some (finish_turn env (initialized i, effects))) (λ j. run env checked_add j events)
        ≡ some (initialized k)
      → run env checked_add (initialized i) events ≡ some (initialized k)
  unfolding complete_if_done
  still_running i k effects events h = elim (Option-cases (completed env i.qbft)) [
    | inl e ↦ rw (e, complete_if_done) at h
    | inr (value, e) ↦ absurd (decided_stays value events k (rw (e, complete_if_done) at h))
  ]

  -- A running instance gets each message and each end of a round.
  running-drive :
      (i k : Initialized D) (events : List (Event D))
      → run env checked_add (initialized i) events ≡ some (initialized k)
      → k.qbft ≡ drive env (operations events) i.qbft
  unfolding turn initialize_instance receive_instance round_ended
  running-drive i k [] h =
      let same : initialized i ≡ initialized k = some_inj.0 h in
      let y : i ≡ k = cc in ap (λ x. x.qbft) (sym y)
  running-drive i k ((now, got (initialize init)) ∷ events) h =
      let joined = record i { on_completed = i.on_completed ++ init.on_completed ∷ [] } in
      running-drive joined k events
        (still_running joined k [] events (received_event now i (got (initialize init)) _ _ h))
  running-drive i k ((now, got (network_message w)) ∷ events) h =
      let h' = received_event now i (got (network_message w)) _ _ h in
      elim (Option-cases (survived (receive env i.qbft w))) [
        | inl e ↦ let y : none ≡ some (initialized k) = rw (e, onward) at h' in cc
        | inr (q, e) ↦
            running-drive _ k events (still_running _ k [] events (rw (e, onward) at h'))
            ∙ ap (drive env (operations events)) (sym (survived-state _ q e))
      ]
  running-drive i k ((now, round_end) ∷ events) h =
      let h' = received_event now i round_end _ _ h in
      elim (Option-cases (survived (end_round env i.qbft))) [
        | inl e ↦ let y : none ≡ some (initialized k) = rw (e, onward) at h' in cc
        | inr (q, e) ↦
            running-drive _ k events (still_running _ k [] events (rw (e, onward) at h'))
            ∙ ap (drive env (operations events)) (sym (survived-state _ q e))
      ]
  running-drive i k ((now, closed) ∷ events) h =
      let y : none ≡ some (initialized k) = received_event now i closed _ _ h in cc

  -- Before the instance exists its messages are kept while there is room for n more.
  buffering :
      (n : ℕ) (buffer : List WrappedQbftMessage) (before rest : List (Event D)) (k : QbftInstance D)
      → n + length buffer ≡ message_buffer_limit
      → Uninitializing before
      → run env checked_add (uninitialized buffer) (before ++ rest) ≡ some k
      → run env checked_add (uninitialized (buffer ++ take n (messages before))) rest ≡ some k
  unfolding turn recv receive_instance round_ended complete_if_done
  buffering zero buffer [] rest k room u h = rw (append-nil buffer) h
  buffering (suc n) buffer [] rest k room u h = rw (append-nil buffer) h
  buffering n buffer ((now, got (initialize init)) ∷ before) rest k room u h = absurd u
  buffering zero buffer ((now, got (network_message w)) ∷ before) rest k room u h =
      let full : ltb (length buffer) message_buffer_limit ≡ false = ground arith in
      buffering zero buffer before rest k room u (rw full at h)
  buffering (suc n) buffer ((now, got (network_message w)) ∷ before) rest k room u h =
      let free : ltb (length buffer) message_buffer_limit ≡ true = ground arith in
      let kept : n + length (buffer ++ w ∷ []) ≡ message_buffer_limit =
        omega (arith, length-append buffer (w ∷ [])) in
      let later = buffering n (buffer ++ w ∷ []) before rest k kept u (rw free at h) in
      subst (λ b. run env checked_add (uninitialized b) rest ≡ some k)
        (append_assoc buffer (w ∷ []) (take n (messages before))) later
  buffering n buffer ((now, round_end) ∷ before) rest k room u h =
      buffering n buffer before rest k room u h
  buffering n buffer ((now, closed) ∷ before) rest k room u h = cc

  -- In a run of the task that leaves its instance running, the QBFT instance is the one of
  -- `Qbft::new` on the first initialization, after exactly these operations, in this order: the
  -- first messages before it, up to the limit of the buffer, are received; then each message after
  -- it is received and each end of a round ends one.
  pub run-drive :
      (before after : List (Event D)) (now : ℕ) (init : QbftInitialization D) (k : Initialized D)
      → Uninitializing before
      → run env checked_add (uninitialized []) (before ++ (now, got (initialize init)) ∷ after)
        ≡ some (initialized k)
      → k.qbft
        ≡ drive env
            (map deliver (take message_buffer_limit (messages before)) ++ operations after)
            (Rounds.new env init.config init.start_data init.message_id).1
  unfolding turn recv initialize_instance
  run-drive before after now init k u h =
      let buffer = take message_buffer_limit (messages before) in
      let start = (Rounds.new env init.config init.start_data init.message_id).1 in
      let events = (now, got (initialize init)) ∷ after in
      let h' = buffering message_buffer_limit [] before events (initialized k) refl u h in
      elim (Option-cases (initialize_new env now buffer init)) [
        | inl e ↦ let y : none ≡ some (initialized k) = rw (e, onward) at h' in cc
        | inr (i, e) ↦
            running-drive i k after (still_running i k [] after (rw (e, onward) at h'))
            ∙ ap (drive env (operations after)) (initialize_new-drive now buffer init i e)
            ∙ sym (drive-++ (map deliver buffer) (operations after) start)
      ]
