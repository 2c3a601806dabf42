-- ===== src/Manager/Timeout.antt =====
-- When a round times out: anchor/qbft_manager/src/timeout.rs, and `TimeoutMode` of lib.rs. A
-- `Duration` is its number of nanoseconds, an `Instant` a number of nanoseconds since some origin.
use anchor.Base.{ℕ, ◌+◌, ◌-◌, ◌*◌, ◌^◌, Option, none, some, leb, ltb, if◌then◌else◌}

-- `?` on an option
infixl 5 ◌>>=◌
abbrev pub ◌>>=◌ {ℓ κ} : {A : Type ℓ} {B : Type κ} → Option A → (A → Option B) → Option B
none >>= rest = none
some a >>= rest = rest a

-- `u64::checked_mul` and `u64::checked_sub`
abbrev pub checked_mul : ℕ → ℕ → Option ℕ
checked_mul a b = if ltb (a * b) (2 ^ 64) then some (a * b) else none

abbrev pub checked_sub : ℕ → ℕ → Option ℕ
checked_sub a b = if leb b a then some (a - b) else none

abbrev pub nanos_per_sec : ℕ
nanos_per_sec = 1000000000

-- `Duration::from_secs`, and `Duration::checked_add`: the seconds of a duration are a `u64`.
abbrev pub from_secs : ℕ → ℕ
from_secs secs = secs * nanos_per_sec

abbrev pub duration_checked_add : ℕ → ℕ → Option ℕ
duration_checked_add a b = if ltb (a + b) (from_secs (2 ^ 64)) then some (a + b) else none

abbrev pub quick_timeout_threshold : ℕ
quick_timeout_threshold = 8

abbrev pub quick_timeout : ℕ
quick_timeout = 2

abbrev pub slow_timeout : ℕ
slow_timeout = 120

abbrev pub proposer_round_timeout : ℕ
proposer_round_timeout = 1500 * 1000000

abbrev pub legacy_proposer_round_timeout : ℕ
legacy_proposer_round_timeout = from_secs 2

-- `slot_time` has the `round_deadline_origin`, `relative` the `current_round_start_time` and the
-- `round_timeout`.
pub data TimeoutMode : Type 0 where
  slot_time : (round_deadline_origin : ℕ) → TimeoutMode
  relative : (current_round_start_time round_timeout : ℕ) → TimeoutMode

unfoldable pub cumulative_timeout : ℕ → Option ℕ
cumulative_timeout round =
    if leb round quick_timeout_threshold
    then (do secs ← checked_mul round quick_timeout; some (from_secs secs))
    else (do
      slow_rounds ← checked_sub round quick_timeout_threshold
      slow_secs ← checked_mul slow_rounds slow_timeout
      duration_checked_add (from_secs (quick_timeout_threshold * quick_timeout))
          (from_secs slow_secs))

unfoldable pub single_round_timeout : ℕ → ℕ → ℕ
single_round_timeout round round_timeout =
    if leb round quick_timeout_threshold then round_timeout else from_secs slow_timeout

-- `checked_add` is that of `tokio::time::Instant`.
unfoldable pub calculate_round_timeout : (ℕ → ℕ → Option ℕ) → ℕ → TimeoutMode → Option ℕ
calculate_round_timeout checked_add round (slot_time origin) = do
  timeout ← cumulative_timeout round
  checked_add origin timeout
calculate_round_timeout checked_add round (relative start timeout) =
    checked_add start (single_round_timeout round timeout)
