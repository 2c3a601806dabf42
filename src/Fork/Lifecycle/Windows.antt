-- ===== src/Fork/Lifecycle/Windows.antt =====
-- The windows of `lifecycle_at` of anchor/common/fork/src/schedule.rs.
use anchor.Base.{
  ℕ, ◌+◌, ◌-◌, ◌*◌, ◌/◌, ◌^◌, ◌≤◌, ◌<◌, ◌≡◌, inl, inr, [], ◌∷◌, none, some, ltb, if◌then◌else◌,
  arith, Bool-cases,
}
use anchor.Fork.{alan, boole, ForkConfig, ForkSchedule, active_fork_config, latest_fork}
use anchor.Fork.Lifecycle.{
  ForkLifecycle, normal, warm_up, grace_period, earliest_fork, next_fork_after, config_of,
  preparing, settled, lifecycle_at,
}

module _ (old new : ForkConfig) where
  -- The schedule of the two forks.
  abbrev pub both : ForkSchedule
  both = record { configs = old ∷ new ∷ [] }

  -- The windows of a slot, as the source's documentation lays them out.
  abbrev pub expected : ℕ → ForkLifecycle
  expected slot =
      if ltb slot ((new.epoch - 1) * 32)
      then normal old
      else if ltb slot (new.epoch * 32)
      then warm_up old new
      else if ltb slot ((new.epoch + 1) * 32)
      then grace_period new old
      else normal new

module _ (old new : ForkConfig) (from : old.fork ≡ alan) (to : new.fork ≡ boole)
    (genesis : old.epoch ≡ 0) (later : 0 < new.epoch) (fits : (new.epoch + 1) * 32 < 2 ^ 64) where
  active-before : (e : ℕ) → e < new.epoch → active_fork_config (both old new) e ≡ some old
  unfolding active_fork_config latest_fork
  active-before e l = ground arith

  active-after : (e : ℕ) → new.epoch ≤ e → active_fork_config (both old new) e ≡ some new
  unfolding active_fork_config latest_fork
  active-after e l = ground arith

  next-before : (e : ℕ) → e < new.epoch → next_fork_after (both old new) e ≡ some new
  unfolding next_fork_after earliest_fork
  next-before e l = ground arith

  next-after : (e : ℕ) → new.epoch ≤ e → next_fork_after (both old new) e ≡ none
  unfolding next_fork_after earliest_fork
  next-after e l = ground arith

  config_of-new : config_of new.fork (both old new).configs ≡ some new
  unfolding config_of
  config_of-new = ground arith

  -- With the fork Alan at epoch 0, Boole at a later epoch whose slots fit 64 bits, and 32 slots in
  -- an epoch: a slot is normal on Alan up to one epoch before Boole, then in the warm-up up to
  -- Boole's first slot, then in the grace period for 32 slots, and then normal on Boole; no slot
  -- panics.
  pub lifecycle_at_lem :
      (slot : ℕ) → lifecycle_at (both old new) slot 32 ≡ some (expected old new slot)
  unfolding lifecycle_at preparing settled
  lifecycle_at_lem slot = elim (Bool-cases (ltb (slot / 32) new.epoch)) [
    | inl before ↦
        rw
          (
            active-before (slot / 32) (ground arith),
            next-before (slot / 32) (ground arith),
            config_of-new,
            lifecycle_at,
            settled,
          )
          (ground (arith, genesis))
    | inr after ↦
        rw
          (
            active-after (slot / 32) (ground arith),
            next-after (slot / 32) (ground arith),
            active-before (new.epoch - 1) (omega arith),
            lifecycle_at,
          )
          (ground (arith, later, fits))
  ]
