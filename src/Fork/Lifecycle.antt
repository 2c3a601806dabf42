-- ===== src/Fork/Lifecycle.antt =====
-- The lifecycle of forks: `next_fork_after` and `lifecycle_at` of anchor/common/fork/src/schedule.rs,
-- the states of anchor/common/fork/src/lifecycle.rs.
pub mod Windows
use anchor.Base.{
  ℕ, ◌+◌, ◌-◌, ◌*◌, ◌/◌, ◌%◌, ◌^◌, Bool, true, false, ◌&&◌, List, [], ◌∷◌, Option, none, some, leb,
  ltb, ◌==◌, if◌then◌else◌, keep,
}
use anchor.Fork.{Fork, alan, boole, rank, ForkConfig, ForkSchedule, active_fork_config}

pub data ForkLifecycle : Type 0 where
  normal : ForkConfig → ForkLifecycle
  warm_up : (current upcoming : ForkConfig) → ForkLifecycle
  grace_period : (current previous : ForkConfig) → ForkLifecycle

abbrev pub fork_preparation_epochs : ℕ
fork_preparation_epochs = 1

abbrev pub subsequent_window_slots : ℕ
subsequent_window_slots = 32

-- `min_by_key` on the epoch: of equal ones, the first.
unfoldable pub earliest_fork : Option ForkConfig → List ForkConfig → Option ForkConfig
earliest_fork best [] = best
earliest_fork none (c ∷ cs) = earliest_fork (some c) cs
earliest_fork (some b) (c ∷ cs) = earliest_fork (some (if ltb c.epoch b.epoch then c else b)) cs

-- The configuration of the next fork; the source returns its fork and its epoch.
unfoldable pub next_fork_after : ForkSchedule → ℕ → Option ForkConfig
unfolding earliest_fork
next_fork_after s epoch = earliest_fork none (keep (λ c. ltb epoch c.epoch) s.configs)

-- `config`: the map's entry for the fork.
unfoldable pub config_of : Fork → List ForkConfig → Option ForkConfig
config_of fork [] = none
config_of fork (c ∷ cs) = if rank c.fork == rank fork then some c else config_of fork cs

-- The test of the warm-up, with the configuration of the upcoming fork; `some none` is the panic of
-- `expect`.
unfoldable pub preparing : ForkSchedule → ℕ → ℕ → Option ForkConfig → Option (Option ForkConfig)
preparing s slot slots_per_epoch none = none
preparing s slot slots_per_epoch (some upcoming) =
    let preparation_start_slot =
      (upcoming.epoch - fork_preparation_epochs) * slots_per_epoch % 2 ^ 64 in
    if leb preparation_start_slot slot then some (config_of upcoming.fork s.configs) else none

-- `lifecycle_at` from the test of the grace period on; the products and sums of `u64` wrap.
unfoldable pub settled : ForkSchedule → ℕ → ℕ → ForkConfig → Option ForkLifecycle
settled s slot slots_per_epoch current =
    let activation_slot = current.epoch * slots_per_epoch % 2 ^ 64 in
    if ltb 0 current.epoch && ltb slot ((activation_slot + subsequent_window_slots) % 2 ^ 64)
    then elim (active_fork_config s (current.epoch - 1)) [
      | none ↦ none
      | some previous ↦ some (grace_period current previous)
    ]
    else some (normal current)

-- `none` is a panic. The number of slots in an epoch is not 0.
unfoldable pub lifecycle_at : ForkSchedule → ℕ → ℕ → Option ForkLifecycle
unfolding settled preparing
lifecycle_at s slot slots_per_epoch =
    let epoch = slot / slots_per_epoch in
    elim (active_fork_config s epoch) [
      | none ↦ none
      | some current ↦ elim (preparing s slot slots_per_epoch (next_fork_after s epoch)) [
        | none ↦ settled s slot slots_per_epoch current
        | some none ↦ none
        | some (some upcoming) ↦ some (warm_up current upcoming)
      ]
    ]
