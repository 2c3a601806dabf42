-- ===== src/Lib.antt =====
-- Anchor: the QBFT consensus of a Secret Shared Validator client.
--
-- Operators of a committee run one QBFT instance for each duty. An instance (anchor/common/qbft)
-- takes signed messages, stores them by round (MessageContainer), and answers with messages of its
-- own: a leader proposes data, operators prepare and commit it, and round changes move on from a
-- round that does not succeed. The messages, committees and rounds are those of
-- anchor/common/ssv_types. The manager of instances (anchor/qbft_manager), which passes messages that
-- message_validator let through and ends rounds by a timer, is the history in Qbft/Reachable. The
-- validator (anchor/message_validator) checks each message from the network, and keeps for each
-- message identifier, operator and slot what it has seen.
--
-- Files and source:
--   Base          shared helpers: tests on numbers, lists, sets and maps as lists, results
--   Ssv           anchor/common/ssv_types/src: Committee (lib.rs), Round (round.rs), Message
--                 (message.rs), Consensus and Codec (consensus.rs), MessageId (msgid.rs), PartialSig
--                 (partial_sig.rs). Below them the facts: Committee/Quorum, Message/Valid,
--                 Message/Sorted, Codec/Roundtrip, MessageId/Slots, PartialSig/Kinds
--   Qbft/Error, Qbft/Types, Qbft/Leader, Qbft/Config
--                 anchor/common/qbft/src: error.rs, qbft_types.rs, config.rs
--   Qbft/Container
--                 anchor/common/qbft/src/msg_container.rs; below it its invariant and its quorums
--   Qbft/Instance anchor/common/qbft/src/lib.rs: the struct Qbft, and a module for each of validate,
--                 justifications, sent messages, rounds, proposal, prepare, commit, round change,
--                 decided, receive. Paths lists the outcomes of the handlers, Frame what the sends
--                 leave alone, Checked what an accepted message has passed, Justified what an
--                 accepted proposal carries, Invariant, Preserved and Quorums the
--                 invariant, Forward the order in which states move
--   Qbft/Reachable, Qbft/Tally, Qbft/Agreement, Qbft/Safety, Qbft/Timeout
--                 histories of an instance and what they keep
--   Fork          anchor/common/fork/src: the forks (fork.rs), their schedule (schedule.rs) and
--                 Fork/Lifecycle the states of lifecycle.rs
--   Subnet        anchor/subnet_service/src: the subnet of a committee (subnet.rs, routing.rs,
--                 service.rs)
--   Validator     anchor/message_validator/src. Validator.antt: the expected proposer and the estimate
--                 of the round (consensus_message.rs). Failure (lib.rs), Counts (message_counts.rs),
--                 SignerState and DutyState (duty_state.rs), Context, Rules and Duty (lib.rs),
--                 Justifications and Consensus (consensus_message.rs), Partial
--                 (partial_signature.rs), Entry and Machine (lib.rs): validate_ssv_message, then
--                 Validator::validate with its map of duty states. Beside them the facts: Admission,
--                 Unchanged, Bounded, Replay, Retention, DutyState/Ring, DutyState/Update, and Sound
--                 and History, on every stored state in every history of the validator
--   Manager       anchor/qbft_manager/src: Timeout the deadlines of rounds (timeout.rs), Instance the
--                 task that owns an instance (instance.rs) and Run its runs; Deadlines, Answers, Agreed,
--                 Driven, Held and Backed the facts
--   Scenarios     a run of a committee of four, and the theorems on it
--
-- Conventions. A handler is a function from the state to its result and the state it leaves, also
-- where it fails; `Result` has one case more, for a panic. A Hash256, an operator and a round are
-- native numbers, a byte string is a list of numbers. A hash map is an association list in the order
-- of first insertion, a BTreeMap an ascending one. The callback that sends a message appends to the
-- field `sent`. The leader's sum wraps at 2^64, as in a release build on a 64-bit target. The source's
-- fields `data` are called msg_data and seen_data.
--
-- Every function is by structural recursion; there is no fuel.
--
-- In the validator a function that takes the state of duties returns it also where it fails, and a time
-- is a number of milliseconds. The texts inside failures are left out.
--
-- Parameters: the data under agreement with its hash, its validator and the SSZ codecs (QbftData), and
-- the leader function of a configuration (LeaderFunction); for the validator the clock, the digests,
-- decoders and signatures of other libraries (Foreign), the duties provider and the network state. No
-- law is assumed of them but where a theorem names it: that a key deserializes to itself, that
-- slots start at even distances, that a slot and its time to live do not overflow.
--
-- A message is admissible if it has one signer or is a commit: what message_validator lets through, as
-- Validator/Admission shows.
--
-- In the manager a channel for a result is a number, a turn of the task is an event with the time that
-- the task reads in it, and what it sends is a list of effects; the addition of a duration to an
-- instant is a parameter.
--
-- Not modelled: logging, metrics, the map of instances and the permits of the manager, cryptography, networking and
-- storage.
pub mod Base
pub mod Ssv
pub mod Qbft
pub mod Fork
pub mod Subnet
pub mod Validator
pub mod Manager
pub mod Scenarios
