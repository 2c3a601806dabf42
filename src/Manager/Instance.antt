-- ===== src/Manager/Instance.antt =====
-- The task that owns one QBFT instance: anchor/qbft_manager/src/instance.rs, with the messages to
-- it of lib.rs. A channel for the result is its number, what the task sends is a list of effects,
-- and `none` is a panic of the task. The time of an event is what `Instant::now()` reads in it.
use anchor.Base.{ℕ, List, [], ◌∷◌, ◌++◌, Option, none, some, ltb, length, if◌then◌else◌, map}
use anchor.Base.Result.{ok, err, panic}
use anchor.Ssv.Message.{Bytes, SignedSsvMessage}
use anchor.Ssv.Consensus.{QbftData}
use anchor.Qbft.Types.{WrappedQbftMessage, Completed, timed_out}
use anchor.Qbft.Config.{Config}
use anchor.Qbft.Instance.{Qbft, Outcome}
use anchor.Qbft.Instance.Rounds
use anchor.Qbft.Instance.Rounds.{end_round}
use anchor.Qbft.Instance.Receive.{receive, completed}
use anchor.Manager.Timeout.{TimeoutMode, slot_time, relative, calculate_round_timeout, ◌>>=◌}

abbrev pub message_buffer_limit : ℕ
message_buffer_limit = 100

-- The data validator is a field of `QbftData`.
pub record QbftInitialization (D : Type 0) : Type 0 where
  pub start_data : D
  pub message_id : Bytes
  pub timeout_mode : TimeoutMode
  pub config : Config
  pub on_completed : ℕ

pub data QbftMessageKind (D : Type 0) : Type 0 where
  initialize : QbftInitialization D → QbftMessageKind D
  network_message : WrappedQbftMessage → QbftMessageKind D

-- The struct `Initialized`. The messages that the instance sent come back as network messages.
pub record Initialized (D : Type 0) : Type 0 where
  pub qbft : Qbft D
  pub on_completed : List ℕ
  pub timeout_mode : TimeoutMode

-- `uninitialized` has the `message_buffer`.
pub data QbftInstance (D : Type 0) : Type 0 where
  uninitialized : (message_buffer : List WrappedQbftMessage) → QbftInstance D
  initialized : Initialized D → QbftInstance D
  decided : Completed D → QbftInstance D

pub data RecvResult (D : Type 0) : Type 0 where
  got : QbftMessageKind D → RecvResult D
  round_end : RecvResult D
  closed : RecvResult D

-- A result sent to a listener, and the decided message sent to the committee of the operators.
pub data Effect (D : Type 0) : Type 0 where
  answer : ℕ → Completed D → Effect D
  send_decided : SignedSsvMessage → List ℕ → Effect D

-- The timer starts again in the mode for single rounds.
abbrev pub restart_timer : ℕ → TimeoutMode → TimeoutMode
restart_timer now (slot_time origin) = slot_time origin
restart_timer now (relative start timeout) = relative now timeout

module _ {D : Type 0} where
  -- An error of a handler is logged.
  abbrev pub survived : Outcome D → Option (Qbft D)
  survived (panic, q) = none
  survived (ok a, q) = some q
  survived (err e, q) = some q

  abbrev pub answer_all : Completed D → List ℕ → List (Effect D)
  answer_all value listeners = map (λ l. answer l value) listeners

module _ {D : Type 0} (env : QbftData D) where
  -- The loop over the `message_buffer`.
  abbrev pub replay : Qbft D → List WrappedQbftMessage → Option (Qbft D)
  replay q [] = some q
  replay q (w ∷ ws) = survived (receive env q w) >>= λ next. replay next ws

  -- `Uninitialized::initialize`; now is the time after the sleep.
  unfoldable pub initialize_new :
      ℕ → List WrappedQbftMessage → QbftInitialization D → Option (Initialized D)
  initialize_new now message_buffer init = do
    q ← survived (Rounds.new env init.config init.start_data init.message_id)
    q' ← replay q message_buffer
    some (record {
      qbft = q';
      on_completed = init.on_completed ∷ [];
      timeout_mode = restart_timer now init.timeout_mode;
    })

  -- `QbftInstance::initialize`
  unfoldable pub initialize_instance :
      ℕ → QbftInstance D → QbftInitialization D → Option (QbftInstance D × List (Effect D))
  initialize_instance now (uninitialized message_buffer) init = do
    i ← initialize_new now message_buffer init
    some (initialized i, [])
  initialize_instance now (initialized i) init =
      some (initialized (record i { on_completed = i.on_completed ++ init.on_completed ∷ [] }), [])
  initialize_instance now (decided value) init =
      some (decided value, answer init.on_completed value ∷ [])

  -- `QbftInstance::receive`, and the timer that starts again if the round advanced.
  unfoldable pub receive_instance :
      ℕ → QbftInstance D → WrappedQbftMessage → Option (QbftInstance D)
  receive_instance now (uninitialized message_buffer) w = some (
      if ltb (length message_buffer) message_buffer_limit
      then uninitialized (message_buffer ++ w ∷ [])
      else uninitialized message_buffer)
  receive_instance now (initialized i) w = do
    q ← survived (receive env i.qbft w)
    some (
        initialized (record {
          qbft = q;
          on_completed = i.on_completed;
          timeout_mode =
              if ltb i.qbft.current_round q.current_round
              then restart_timer now i.timeout_mode
              else i.timeout_mode;
        }))
  receive_instance now (decided value) w = some (decided value)

  unfoldable pub round_ended : ℕ → QbftInstance D → Option (QbftInstance D)
  round_ended now (initialized i) = do
    q ← survived (end_round env i.qbft)
    some (
        initialized (record {
          qbft = q;
          on_completed = i.on_completed;
          timeout_mode = restart_timer now i.timeout_mode;
        }))
  round_ended now (uninitialized message_buffer) = some (uninitialized message_buffer)
  round_ended now (decided value) = some (decided value)

  -- `get_aggregated_commit`, sent to the committee.
  abbrev pub decided_message : Qbft D → List (Effect D)
  decided_message q = elim q.aggregated_commit [
    | none ↦ []
    | some m ↦ send_decided m q.config.committee_members ∷ []
  ]

  unfoldable pub complete_if_done : QbftInstance D → QbftInstance D × List (Effect D)
  complete_if_done (initialized i) = elim (completed env i.qbft) [
    | none ↦ (initialized i, [])
    | some value ↦ (decided value, answer_all value i.on_completed ++ decided_message i.qbft)
  ]
  complete_if_done (uninitialized message_buffer) = (uninitialized message_buffer, [])
  complete_if_done (decided value) = (decided value, [])

  -- What the task receives: the deadline of the round may overflow, which stops it.
  unfoldable pub recv : (ℕ → ℕ → Option ℕ) → QbftInstance D → RecvResult D → RecvResult D
  recv checked_add (initialized i) event =
      elim (calculate_round_timeout checked_add i.qbft.current_round i.timeout_mode) [
        | none ↦ closed
        | some deadline ↦ event
      ]
  recv checked_add (uninitialized message_buffer) event = event
  recv checked_add (decided value) event = event

  -- The listeners that a closed queue leaves time out.
  abbrev pub close : QbftInstance D → List (Effect D)
  close (initialized i) = answer_all timed_out i.on_completed
  close (uninitialized message_buffer) = []
  close (decided value) = []

  abbrev pub finish_turn :
      QbftInstance D × List (Effect D) → Option (QbftInstance D) × List (Effect D)
  finish_turn (i, effects) = let (next, more) = complete_if_done i in (some next, effects ++ more)

  -- One turn of the loop of `qbft_instance` on what was received; it leaves no instance where the
  -- loop breaks.
  unfoldable pub turn :
      ℕ → QbftInstance D → RecvResult D → Option (Option (QbftInstance D) × List (Effect D))
  turn now i (got (initialize init)) = do
    outcome ← initialize_instance now i init
    some (finish_turn outcome)
  turn now i (got (network_message w)) = do
    next ← receive_instance now i w
    some (finish_turn (next, []))
  turn now i round_end = do next ← round_ended now i; some (finish_turn (next, []))
  turn now i closed = some (none, close i)
