-- ===== src/Manager/Deadlines.antt =====
-- The deadlines of rounds (anchor/qbft_manager/src/timeout.rs) against the validator's estimate of
-- the round (anchor/message_validator/src/consensus_message.rs).
use anchor.Base.{
  ℕ, ◌+◌, ◌-◌, ◌*◌, ◌/◌, ◌≤◌, ◌<◌, ◌≡◌, ◌↔◌, Option, none, some, arith, Option-cases, ◌⊎◌, inl, inr,
}
use anchor.Validator.{current_estimated_round}
use anchor.Manager.Timeout.{slot_time, cumulative_timeout, calculate_round_timeout, nanos_per_sec}

-- The length of the first rounds together, where it does not overflow.
pub cumulative_timeout-some :
    (round t : ℕ)
    → cumulative_timeout round ≡ some t
    → ((round ≤ 8) × (t ≡ round * 2 * nanos_per_sec))
      ⊎ ((8 < round) × (t ≡ (16 + (round - 8) * 120) * nanos_per_sec))
unfolding cumulative_timeout
cumulative_timeout-some round t e = ground arith

whole_seconds : (since k : ℕ) → (since / nanos_per_sec < k) ↔ (since < k * nanos_per_sec)
whole_seconds since k = (λ h. omega arith, λ h. omega arith)

estimate_quick : (s round : ℕ) → round ≤ 8 → (current_estimated_round s ≤ round) ↔ (s < round * 2)
unfolding current_estimated_round
estimate_quick s round q = (λ h. ground arith, λ h. ground arith)

estimate_slow :
    (s round : ℕ) → 8 < round → (current_estimated_round s ≤ round) ↔ (s < 16 + (round - 8) * 120)
unfolding current_estimated_round
estimate_slow s round q = (λ h. ground arith, λ h. ground arith)

-- The validator's estimate of the round is at most a given round exactly as long as the rounds up
-- to that one have not ended, for a given number of nanoseconds since they began.
pub estimate_iff :
    (since round t : ℕ)
    → cumulative_timeout round ≡ some t
    → (current_estimated_round (since / nanos_per_sec) ≤ round) ↔ (since < t)
estimate_iff since round t e = elim (cumulative_timeout-some round t e) [
  | inl (q, f) ↦
      let a = estimate_quick (since / nanos_per_sec) round q in
      let b = whole_seconds since (round * 2) in
      (λ h. rw f (b.0 (a.0 h)), λ h. a.1 (b.1 (rw f at h)))
  | inr (q, f) ↦
      let a = estimate_slow (since / nanos_per_sec) round q in
      let b = whole_seconds since (16 + (round - 8) * 120) in
      (λ h. rw f (b.0 (a.0 h)), λ h. a.1 (b.1 (rw f at h)))
]

-- Once the rounds count from an origin, the validator's estimate of the round at a later instant is
-- at most a given round exactly if the deadline of that round is still to come, where the deadline
-- does not overflow. Adding to an instant is exact where it succeeds.
pub calculate_round_timeout-current_estimated_round :
    (checked_add : ℕ → ℕ → Option ℕ)
    → ((a b t : ℕ) → checked_add a b ≡ some t → t ≡ a + b)
    → (origin now round deadline : ℕ) → origin ≤ now
    → calculate_round_timeout checked_add round (slot_time origin) ≡ some deadline
    → (current_estimated_round ((now - origin) / nanos_per_sec) ≤ round) ↔ (now < deadline)
unfolding calculate_round_timeout
calculate_round_timeout-current_estimated_round checked_add exact origin now round deadline l e =
    elim (Option-cases (cumulative_timeout round)) [
      | inl overflow ↦ let x : none ≡ some deadline = rw overflow at e in cc
      | inr (t, f) ↦
          let d : deadline ≡ origin + t = exact origin t deadline (rw f at e) in
          let i = estimate_iff (now - origin) round t f in
          (λ h. omega (arith, d, i.0 h), λ h. i.1 (omega (arith, d, h)))
    ]
