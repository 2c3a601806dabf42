-- ===== src/Qbft/Instance/Rounds.antt =====
-- Rounds: `start_round`, `set_round`, `end_round` and `Qbft::new` of anchor/common/qbft/src/lib.rs.
-- An error of a send is logged there and dropped; a panic is kept as the result.
use anchor.Base.{false, [], none, some, ltb, if◌then◌else◌}
use anchor.Base.Maps.{put}
use anchor.Base.Result.{Result, ok, err, panic}
use anchor.Ssv.Round.{Round, next}
use anchor.Ssv.Message.{Bytes}
use anchor.Ssv.Consensus.{QbftData}
use anchor.Qbft.Error.{QbftError}
use anchor.Qbft.Types.{
  awaiting_proposal, sent_round_change, complete, timed_out, is_sent_round_change,
}
use anchor.Qbft.Config.{Config, config_quorum_size}
use anchor.Qbft.Container
use anchor.Qbft.Instance.{
  Qbft, highest_prepared, prepared_exists_but_data_missing, no_prepared, check_leader,
}
use anchor.Qbft.Instance.Justify.{justify_round_change_quorum}
use anchor.Qbft.Instance.Send.{send_proposal, send_round_change}

abbrev pub logged {ℓ} :
    {S : Type ℓ} → Result QbftError (Unit {0}) × S → Result QbftError (Unit {0}) × S
logged (ok _, q) = (ok tt, q)
logged (err _, q) = (ok tt, q)
logged (panic, q) = (panic, q)

module _ {D : Type 0} (env : QbftData D) where
  -- What the leader of the round does.
  unfoldable pub lead : Qbft D → Result QbftError (Unit {0}) × Qbft D
  lead q = elim (justify_round_change_quorum env q) [
    | highest_prepared v ↦ logged (send_proposal env q v.hash v.value)
    | no_prepared ↦ logged (send_proposal env q q.valid_start_data.hash q.valid_start_data.value)
    | prepared_exists_but_data_missing _ ↦ (ok tt, q)
  ]

  unfoldable pub start_round : Qbft D → Result QbftError (Unit {0}) × Qbft D
  start_round q₀ =
      if is_sent_round_change q₀.state
      then (ok tt, q₀)
      else let q = record q₀ { state = awaiting_proposal } in
        if check_leader q q.config.operator_id q.current_round then lead q else (ok tt, q)

  unfoldable pub set_round : Qbft D → Round → Result QbftError (Unit {0}) × Qbft D
  set_round q new_round = start_round (record q { current_round = new_round })

  abbrev pub time_out : Qbft D → Qbft D
  time_out q = record q { state = complete; completed = some timed_out }

  -- The send of the round change, and `start_round` if it went out.
  unfoldable pub start_if_sent :
      Result QbftError (Unit {0}) × Qbft D → Result QbftError (Unit {0}) × Qbft D
  start_if_sent (ok _, q) = start_round q
  start_if_sent (err _, q) = (ok tt, q)
  start_if_sent (panic, q) = (panic, q)

  unfoldable pub end_round : Qbft D → Result QbftError (Unit {0}) × Qbft D
  end_round q = elim (next q.current_round) [
    | none ↦ (ok tt, time_out q)
    | some next_round ↦
        if ltb q.config.max_rounds next_round
        then (ok tt, time_out q)
        else start_if_sent (
            send_round_change env
              (record q { current_round = next_round; state = sent_round_change }) 0)
  ]

  -- The record that `Qbft::new` builds before it starts the round.
  unfoldable pub initial : Config → D → Bytes → Qbft D
  initial config start_data identifier = record {
    config = config;
    identifier = identifier;
    instance_height = config.instance_height;
    start_data_hash = env.hash start_data;
    start_data = start_data;
    valid_start_data = record { hash = env.hash start_data; value = start_data };
    seen_data = put (env.hash start_data) start_data [];
    current_round = config.round;
    state = awaiting_proposal;
    completed = none;
    propose_container = Container.new (config_quorum_size config);
    prepare_container = Container.new (config_quorum_size config);
    commit_container = Container.new (config_quorum_size config);
    round_change_container = Container.new (config_quorum_size config);
    proposal_accepted_for_current_round = false;
    proposal_root = none;
    last_prepared_round = none;
    last_prepared_value = none;
    aggregated_commit = none;
    sent = [];
  }

  unfoldable pub new : Config → D → Bytes → Result QbftError (Unit {0}) × Qbft D
  unfolding initial
  new config start_data identifier = start_round (initial config start_data identifier)
