-- ===== src/Scenarios/Forks.antt =====
-- The theorems on forks and on the validator's leader, on a schedule of two forks.
use anchor.Base.{ℕ, ◌≤◌, ◌≡◌, refl, [], ◌∷◌, some, arith, ◌==◌, leb, keep, All, true, ◌/◌}
use anchor.Base.Result.{ok}
use anchor.Fork.{
  alan, boole, rank, ForkConfig, ForkSchedule, alan_epoch, check_order, from_fork_configs,
  latest_fork, active_fork_config,
}
use anchor.Fork.Active.{active_fork_config_lem, active_fork_config_mono}
use anchor.Qbft.Leader.{DefaultLeaderFunction, leader_function}
use anchor.Validator.{boole_active, round_robin_proposer}
use anchor.Validator.Leader.{round_robin_proposer-leader_function}
use anchor.Fork.Lifecycle.{lifecycle_at}
use anchor.Fork.Lifecycle.Windows.{both, expected, lifecycle_at_lem}
use anchor.Scenarios.{four}

abbrev alan_config : ForkConfig
alan_config = record { fork = alan; epoch = 0; domain_type = 1 }

abbrev boole_config : ForkConfig
boole_config = record { fork = boole; epoch = 2; domain_type = 2 }

abbrev pub schedule : ForkSchedule
schedule = record { configs = alan_config ∷ boole_config ∷ [] }

schedule_accepted : from_fork_configs schedule.configs ≡ ok schedule
unfolding from_fork_configs alan_epoch check_order
schedule_accepted = refl

active_at_1 : active_fork_config schedule 1 ≡ some alan_config
unfolding active_fork_config latest_fork
active_at_1 = refl

active_at_3 : active_fork_config schedule 3 ≡ some boole_config
unfolding active_fork_config latest_fork
active_at_3 = refl

active_fork_config_lem_example :
    (c : ForkConfig) × (active_fork_config schedule 3 ≡ some c)
    × (c.epoch ≤ 3)
    × All (λ x. rank x.fork ≤ rank c.fork) (keep (λ x. leb x.epoch 3) schedule.configs)
active_fork_config_lem_example =
    active_fork_config_lem schedule.configs schedule 3 schedule_accepted

active_fork_config_mono_example : rank alan ≤ rank boole
active_fork_config_mono_example =
    active_fork_config_mono schedule 1 3 alan_config boole_config (omega arith) active_at_1
      active_at_3

abbrev shifted : DefaultLeaderFunction
shifted = record { slots_per_epoch = 32; include_epoch_shift = true }

boole_at_96 : boole_active schedule (96 / 32) ≡ some true
unfolding boole_active active_fork_config latest_fork
boole_at_96 = refl

round_robin_proposer-leader_function_example :
    (l : ℕ) × (round_robin_proposer 96 2 four 32 schedule ≡ ok l)
    × ((op : ℕ) → leader_function shifted op 2 96 four ≡ some (op == l))
round_robin_proposer-leader_function_example =
    round_robin_proposer-leader_function shifted 2 96 four schedule (omega arith) (omega arith)
      (omega arith) (omega arith) boole_at_96

lifecycle_at_lem_example :
    lifecycle_at (both alan_config boole_config) 70 32 ≡ some (expected alan_config boole_config 70)
lifecycle_at_lem_example =
    lifecycle_at_lem alan_config boole_config refl refl refl (omega arith) (omega arith) 70
