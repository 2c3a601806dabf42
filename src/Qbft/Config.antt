-- ===== src/Qbft/Config.antt =====
-- The configuration of an instance and its builder: anchor/common/qbft/src/config.rs. Both hold
-- the same fields; the round's duration is used by the manager alone and is left out.
pub mod Built
use anchor.Base.{ℕ, Bool, not, List, ◌==◌, ltb, if◌then◌else◌, length}
use anchor.Base.Result.{Result, ok, err}
use anchor.Base.Sets.{contains}
use anchor.Ssv.Committee.{quorum_size, is_valid_committee_size}
use anchor.Ssv.Round.{Round, first_round}
use anchor.Qbft.Error.{
  ConfigBuilderError, no_participants, operator_not_participant, invalid_committee_size,
  zero_max_rounds, exceeding_starting_round,
}

-- `LeaderFunction::leader_function(operator_id, round, instance_height, committee)`
abbrev pub LeaderFunction : Type 0
LeaderFunction = ℕ → Round → ℕ → List ℕ → Bool

pub record Config : Type 0 where
  pub operator_id : ℕ
  pub instance_height : ℕ
  pub round : Round
  pub committee_members : List ℕ
  pub max_rounds : ℕ
  pub leader_fn : LeaderFunction

-- `Config::quorum_size`
unfoldable pub config_quorum_size : Config → ℕ
config_quorum_size c = quorum_size (length c.committee_members)

-- `ConfigBuilder::new_with_leader_fn`
unfoldable pub new_with_leader_fn : ℕ → ℕ → List ℕ → LeaderFunction → Config
new_with_leader_fn operator_id instance_height committee_members leader_fn = record {
  operator_id = operator_id;
  instance_height = instance_height;
  round = first_round;
  committee_members = committee_members;
  max_rounds = 4;
  leader_fn = leader_fn;
}

unfoldable pub build : Config → Result ConfigBuilderError Config
build b =
    let committee_size = length b.committee_members in
    if committee_size == 0
    then err no_participants
    else if not (contains b.committee_members b.operator_id)
    then err operator_not_participant
    else if not (is_valid_committee_size committee_size)
    then err invalid_committee_size
    else if b.max_rounds == 0
    then err zero_max_rounds
    else if ltb b.max_rounds b.round
    then err exceeding_starting_round
    else ok b
