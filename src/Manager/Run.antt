-- ===== src/Manager/Run.antt =====
-- Runs of the task of anchor/qbft_manager/src/instance.rs, and the operations on its QBFT instance.
use anchor.Base.{ℕ, List, [], ◌∷◌, Option, none, some}
use anchor.Ssv.Consensus.{QbftData}
use anchor.Qbft.Types.{WrappedQbftMessage}
use anchor.Qbft.Instance.{Qbft}
use anchor.Qbft.Instance.Rounds.{end_round}
use anchor.Qbft.Instance.Receive.{receive}
use anchor.Manager.Instance.{
  initialize, network_message, QbftInstance, RecvResult, got, round_end, closed, Effect, recv, turn,
}

-- An event, with the time at which the task handles it.
abbrev pub Event : Type 0 → Type 0
Event D = ℕ × RecvResult D

-- What the task may do to its instance after `Qbft::new`.
pub data Operation : Type 0 where
  deliver : WrappedQbftMessage → Operation
  finish_round : Operation

module _ {D : Type 0} where
  -- The messages among the events.
  abbrev pub messages : List (Event D) → List WrappedQbftMessage
  messages [] = []
  messages ((now, got (initialize init)) ∷ events) = messages events
  messages ((now, got (network_message w)) ∷ events) = w ∷ messages events
  messages ((now, round_end) ∷ events) = messages events
  messages ((now, closed) ∷ events) = messages events

  -- The messages and ends of rounds among the events.
  abbrev pub operations : List (Event D) → List Operation
  operations [] = []
  operations ((now, got (initialize init)) ∷ events) = operations events
  operations ((now, got (network_message w)) ∷ events) = deliver w ∷ operations events
  operations ((now, round_end) ∷ events) = finish_round ∷ operations events
  operations ((now, closed) ∷ events) = operations events

  -- No event initializes the instance.
  abbrev pub Uninitializing : List (Event D) → Type 0
  Uninitializing [] = Unit {0}
  Uninitializing ((now, got (initialize init)) ∷ events) = ⊥
  Uninitializing ((now, got (network_message w)) ∷ events) = Uninitializing events
  Uninitializing ((now, round_end) ∷ events) = Uninitializing events
  Uninitializing ((now, closed) ∷ events) = Uninitializing events

  -- The rest of a run, on the instance that a turn leaves.
  abbrev pub onward :
      Option (Option (QbftInstance D) × List (Effect D))
      → (QbftInstance D → Option (QbftInstance D))
      → Option (QbftInstance D)
  onward none rest = none
  onward (some (none, effects)) rest = none
  onward (some (some i, effects)) rest = rest i

module _ {D : Type 0} (env : QbftData D) where
  -- The operations one after the other.
  abbrev pub drive : List Operation → Qbft D → Qbft D
  drive [] q = q
  drive (deliver w ∷ ops) q = drive ops (receive env q w).1
  drive (finish_round ∷ ops) q = drive ops (end_round env q).1

  -- The turns of the task, one on each event; none if it has ended.
  abbrev pub run : (ℕ → ℕ → Option ℕ) → QbftInstance D → List (Event D) → Option (QbftInstance D)
  run checked_add i [] = some i
  run checked_add i ((now, event) ∷ events) =
      onward (turn env now i (recv env checked_add i event)) λ j. run checked_add j events
