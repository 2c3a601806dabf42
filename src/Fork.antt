-- ===== src/Fork.antt =====
-- Forks and their schedule: anchor/common/fork/src/fork.rs and schedule.rs.
pub mod Active
pub mod Lifecycle
use anchor.Base.{
  ℕ, Bool, true, false, not, ◌&&◌, List, [], ◌∷◌, Option, none, some, leb, ltb, ◌==◌, if◌then◌else◌,
  keep, map, is_some,
}
use anchor.Base.Result.{Result, ok, err, ◌>>=◌, ◌>>◌, guard}
use anchor.Base.Sets.{contains, insert}

pub data Fork : Type 0 where
  alan boole : Fork

-- The derived order: earlier variants are older forks.
abbrev pub rank : Fork → ℕ
rank alan = 0
rank boole = 1

-- A domain type is the number that its four bytes spell.
pub record ForkConfig : Type 0 where
  pub fork : Fork
  pub epoch : ℕ
  pub domain_type : ℕ

-- The map from forks to their configurations, in the forks' order; the name of the network is used
-- for topics alone and is left out.
pub record ForkSchedule : Type 0 where
  pub configs : List ForkConfig

-- The messages of `from_fork_configs`.
pub data ForkScheduleError : Type 0 where
  alan_not_at_zero alan_missing : ForkScheduleError
  before_earlier_fork domain_reused : Fork → ForkScheduleError

-- `raw_configs.get(&Fork::Alan)`
unfoldable pub alan_epoch : List ForkConfig → Option ℕ
alan_epoch [] = none
alan_epoch (c ∷ cs) = elim c.fork [ alan ↦ some c.epoch | boole ↦ alan_epoch cs ]

-- `epoch <= prev && epoch != 0`, where there is a previous epoch.
abbrev pub too_early : Option ℕ → ℕ → Bool
too_early none epoch = false
too_early (some prev) epoch = leb epoch prev && not (epoch == 0)

-- The loop over the forks: the epoch of the previous fork and the domain types seen.
unfoldable pub check_order :
    Option ℕ → List ℕ → List ForkConfig → Result ForkScheduleError (Unit {0})
check_order prev_epoch domains [] = ok tt
check_order prev_epoch domains (c ∷ cs) =
    guard (not (too_early prev_epoch c.epoch)) (before_earlier_fork c.fork)
    >> guard (not (contains domains c.domain_type)) (domain_reused c.fork)
    >> check_order (some c.epoch) (insert c.domain_type domains) cs

unfoldable pub from_fork_configs : List ForkConfig → Result ForkScheduleError ForkSchedule
from_fork_configs raw_configs = elim (alan_epoch raw_configs) [
  | none ↦ err alan_missing
  | some epoch ↦
      if not (epoch == 0)
      then err alan_not_at_zero
      else (check_order none [] raw_configs >>= λ _. ok (record { configs = raw_configs }))
]

-- `max_by_key` on the fork: of equal ones, the last.
unfoldable pub latest_fork : Option ForkConfig → List ForkConfig → Option ForkConfig
latest_fork best [] = best
latest_fork none (c ∷ cs) = latest_fork (some c) cs
latest_fork (some b) (c ∷ cs) =
    latest_fork (some (if leb (rank b.fork) (rank c.fork) then c else b)) cs

-- `none` is the panic of `expect`.
unfoldable pub active_fork_config : ForkSchedule → ℕ → Option ForkConfig
unfolding latest_fork
active_fork_config s epoch = latest_fork none (keep (λ c. leb c.epoch epoch) s.configs)
