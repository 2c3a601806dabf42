-- ===== src/Ssv/Round.antt =====
-- Rounds: anchor/common/ssv_types/src/round.rs. A `Round` is the number that it holds, which the
-- source's `NonZeroUsize` keeps away from 0.
use anchor.Base.{ℕ, ◌+◌, ◌-◌, ◌^◌, Option, none, some, ◌==◌, leb, if◌then◌else◌}
use anchor.Base.Result.{Result, ok, panic}

abbrev pub Round : Type 0
Round = ℕ

-- `usize::MAX` of a 64-bit target.
abbrev pub usize_max : ℕ
usize_max = 2 ^ 64 - 1

-- `From<u64>`: the conversion panics on 0.
abbrev pub from_u64 {ℓ} : {E : Type ℓ} → ℕ → Result E Round
from_u64 round = if round == 0 then panic else ok round

-- `Default`: rounds are indexed starting at 1.
abbrev pub first_round : Round
first_round = 1

-- `Add<u64>`: checked addition.
unfoldable pub add : Round → ℕ → Option Round
add self rhs =
    let sum = self + rhs in
    if leb sum usize_max then (if sum == 0 then none else some sum) else none

unfoldable pub next : Round → Option Round
next self = if leb (self + 1) usize_max then some (self + 1) else none
