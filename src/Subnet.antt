-- ===== src/Subnet.antt =====
-- Subnets of committees and their choice by fork: anchor/subnet_service/src/subnet.rs, routing.rs
-- and service.rs. A committee identifier and a digest are the numbers that their bytes spell, the
-- most significant first.
pub mod Range
use anchor.Base.{ℕ, ◌/◌, ◌%◌, ◌<◌, List, [], ◌∷◌, Option, none, some, leb, if◌then◌else◌, ◌==◌}
use anchor.Base.Result.{Result, ok, err, panic, ◌>>=◌, ok_or}
use anchor.Fork.{Fork, alan, boole, ForkSchedule, active_fork_config}
use anchor.Ssv.Message.{Bytes}
use anchor.Ssv.Consensus.{Hash256}
use anchor.Ssv.Codec.{to_le}
use anchor.Validator.SignerState.{committee_id}

-- `SUBNET_COUNT`
abbrev pub subnet_count : ℕ
subnet_count = 128

pub data SubnetCalculationError : Type 0 where
  empty_operator_list invalid_subnet_count subnet_id_out_of_range : SubnetCalculationError

-- `SubnetId::from_committee_alan`; a remainder of 0 panics.
unfoldable pub from_committee_alan : Hash256 → ℕ → Result SubnetCalculationError ℕ
from_committee_alan id count = if count == 0 then panic else ok (id % count)

-- The least digest of an operator: `min` of the iterator, the earlier of equal ones.
unfoldable pub min_hash : (Bytes → Hash256) → Option Hash256 → List ℕ → Option Hash256
min_hash sha256 least [] = least
min_hash sha256 none (id ∷ ids) = min_hash sha256 (some (sha256 (to_le 8 id))) ids
min_hash sha256 (some least) (id ∷ ids) =
    let digest = sha256 (to_le 8 id) in
    min_hash sha256 (some (if leb least digest then least else digest)) ids

-- `SubnetId::from_operators`, for a count of subnets that is not 0 and fits 64 bits: the remainder
-- fits too.
unfoldable pub from_operators : (Bytes → Hash256) → List ℕ → ℕ → Result SubnetCalculationError ℕ
from_operators sha256 operator_ids count = do
  least ← ok_or (min_hash sha256 none operator_ids) empty_operator_list
  ok (least % count)

-- `SubnetId::from_operators_for_fork`
unfoldable pub from_operators_for_fork :
    (Bytes → Hash256) → List ℕ → Fork → Result SubnetCalculationError ℕ
from_operators_for_fork sha256 operator_ids alan =
    from_committee_alan (committee_id sha256 operator_ids) subnet_count
from_operators_for_fork sha256 operator_ids boole = from_operators sha256 operator_ids subnet_count
