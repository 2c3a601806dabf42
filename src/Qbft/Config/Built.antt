-- ===== src/Qbft/Config/Built.antt =====
-- What a configuration that `ConfigBuilder::build` of anchor/common/qbft/src/config.rs returns
-- satisfies.
use anchor.Base.{◌≤◌, ◌<◌, ◌≡◌, ◌↔◌, true, arith, length}
use anchor.Base.Result.{ok}
use anchor.Base.Sets.{contains}
use anchor.Ssv.Committee.{is_valid_committee_size}
use anchor.Qbft.Config.{Config, build}

-- `build` accepts a configuration, and returns it as it is, exactly when the committee has a
-- canonical size and the operator in it and the starting round is at most the last one, which is
-- not 0.
pub build_iff :
    (b c : Config)
    → (build b ≡ ok c) ↔ (
        (c ≡ b)
        × (is_valid_committee_size (length b.committee_members) ≡ true)
        × (contains b.committee_members b.operator_id ≡ true)
        × (b.round ≤ b.max_rounds)
        × (0 < b.max_rounds))
unfolding build is_valid_committee_size
build_iff b c = ground arith
