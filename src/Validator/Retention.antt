-- ===== src/Validator/Retention.antt =====
-- The rings of slots span the window in which messages are accepted: `stored_slot_count` against
-- `validate_slot_time` in anchor/message_validator/src/lib.rs.
use anchor.Base.{
  ℕ, ◌+◌, ◌-◌, ◌*◌, ◌/◌, ◌%◌, ◌≤◌, ◌<◌, ◌≡◌, sym, ap, ◌∙◌, inl, inr, some, arith, leb, ltb,
  Bool-cases, Option-cases,
}
use native.Mathlib.Nat.{
  mod-add-mod, mod-eq_of_lt, mod-eq-sub-mod, mod-lt, lt-div-mul-add, add-mul,
  lt_of_mul-lt-mul_right, mul-le-mul_right,
}
use anchor.Base.Result.{ok, guard-eq-ok, >>=-eq-ok, map_err, map_err-eq-ok}
use anchor.Validator.Failure.{slot_start_time_not_found}
use anchor.Ssv.MessageId.{
  Role, committee, aggregator, proposer, sync_committee, validator_registration, voluntary_exit,
  aggregator_committee, ptc_attester, proposer_preferences,
}
use anchor.Validator.Context.{Foreign, ValidationContext, slot_start_time}
use anchor.Validator.Rules.{
  stored_slot_count, earliest_slot, time_to_live, message_earliness, message_lateness,
  validate_slot_time,
}

-- Numbers that differ by less than n have different remainders.
same_place_shifted : (n x k : ℕ) → k < n → (x + k) % n ≡ x % n → k ≡ 0
same_place_shifted n x k l e =
    let r : x % n < n = mod-lt x (omega arith) in
    let split : (x % n + k) % n ≡ x % n = mod-add-mod x n k ∙ e in
    elim (Bool-cases (ltb (x % n + k) n)) [
      | inl small ↦
          let at : (x % n + k) % n ≡ x % n + k = mod-eq_of_lt (ground (arith, small)) in omega arith
      | inr large ↦
          let full : n ≤ x % n + k = ground (arith, large) in
          let at : (x % n + k) % n ≡ (x % n + k - n) % n = mod-eq-sub-mod full in
          let below : (x % n + k - n) % n ≡ x % n + k - n = mod-eq_of_lt (omega arith) in
          omega arith
    ]

same_place : (n x y : ℕ) → x ≤ y → y < x + n → x % n ≡ y % n → x ≡ y
same_place n x y l h e =
    let k : x + (y - x) ≡ y = omega arith in
    let z = same_place_shifted n x (y - x) (omega arith) (ap (λ v. v % n) k ∙ sym e) in omega arith

start_of_ok :
    (foreign : Foreign) (slot t : ℕ)
    → slot_start_time foreign slot ≡ ok t
    → foreign.start_of slot ≡ some t
unfolding slot_start_time
start_of_ok foreign slot t h = elim (Option-cases (foreign.start_of slot)) [
  | inl missing ↦ absurd (ground (arith, missing))
  | inr (u, found) ↦ ground (arith, found)
]

-- The two bounds of an accepted slot.
accepted_times :
    (foreign : Foreign) (c : ValidationContext) (slot : ℕ)
    → validate_slot_time foreign c slot ≡ ok tt
    → (s t : ℕ) × (foreign.start_of
          (earliest_slot c.role c.slots_per_epoch foreign.min_seed_lookahead slot)
        ≡ some s)
      × (foreign.start_of (foreign.slot_add slot (time_to_live c.role c.slots_per_epoch)) ≡ some t)
      × (s ≤ c.received_at + 1050)
      × (c.received_at ≤ t + 3050)
unfolding validate_slot_time message_earliness message_lateness
accepted_times foreign c slot h =
    let (early, he, h₁) = >>=-eq-ok (message_earliness foreign c slot) _ h in
    let (is_early, h₂) = guard-eq-ok (leb early 1050) _ _ h₁ in
    let (late, hl, h₃) = >>=-eq-ok (message_lateness foreign c slot) _ h₂ in
    let (s, hs, es) = >>=-eq-ok (slot_start_time foreign _) _ he in
    let (t, ht, h₄) =
      >>=-eq-ok (map_err (λ _. slot_start_time_not_found slot) (slot_start_time foreign _)) _ hl in
    let (_, et) = guard-eq-ok (leb (t + 3000) foreign.system_time_max) _ _ h₄ in
    (
      s,
      t,
      start_of_ok foreign _ s hs,
      start_of_ok foreign _ t (map_err-eq-ok _ _ ht),
      ground (arith, es, is_early),
      ground (arith, et, h₃),
    )

module _ (foreign : Foreign) (c : ValidationContext) (genesis duration : ℕ)
    (clock : (slot t : ℕ) → foreign.start_of slot ≡ some t → t ≡ genesis + slot * duration)
    (long : 4100 < duration) (some_slots : 0 < c.slots_per_epoch) where
  -- The slot from which the later message is accepted is at most the last one of the earlier.
  window :
      (a b : ℕ)
      → foreign.slot_add a (time_to_live c.role c.slots_per_epoch)
        ≡ a + time_to_live c.role c.slots_per_epoch
      → validate_slot_time foreign c a ≡ ok tt
      → validate_slot_time foreign c b ≡ ok tt
      → earliest_slot c.role c.slots_per_epoch foreign.min_seed_lookahead b
        ≤ a + time_to_live c.role c.slots_per_epoch
  window a b sum ha hb =
      let last = a + time_to_live c.role c.slots_per_epoch in
      let from = earliest_slot c.role c.slots_per_epoch foreign.min_seed_lookahead b in
      let (_, t, _, et, _, late) = accepted_times foreign c a ha in
      let (s, _, es, _, early, _) = accepted_times foreign c b hb in
      let start : s ≡ genesis + from * duration = clock from s es in
      let deadline : t ≡ genesis + last * duration = clock last t (rw sum at et) in
      let product : from * duration < (last + 1) * duration =
        omega (arith, add-mul last 1 duration) in
      let bound : from < last + 1 = lt_of_mul-lt-mul_right duration product in omega arith

  -- A slot of the epoch of the earlier message is less than a ring before the later message.
  ring_covers :
      (role : Role) (a b : ℕ)
      → earliest_slot role c.slots_per_epoch foreign.min_seed_lookahead b
        ≤ a + time_to_live role c.slots_per_epoch
      → b
        < a / c.slots_per_epoch * c.slots_per_epoch
          + stored_slot_count role c.slots_per_epoch foreign.min_seed_lookahead
  unfolding earliest_slot time_to_live stored_slot_count
  ring_covers proposer_preferences a b w =
      let epoch = b / c.slots_per_epoch in
      let ahead = foreign.min_seed_lookahead in
      let whole : epoch ≤ epoch - ahead + ahead = omega arith in
      omega (
        arith,
        lt-div-mul-add {a = a} some_slots,
        lt-div-mul-add {a = b} some_slots,
        mul-le-mul_right c.slots_per_epoch whole,
        add-mul (epoch - ahead) ahead c.slots_per_epoch,
        add-mul 1 ahead c.slots_per_epoch,
      )
  ring_covers committee a b w = omega (arith, lt-div-mul-add {a = a} some_slots)
  ring_covers aggregator a b w = omega (arith, lt-div-mul-add {a = a} some_slots)
  ring_covers proposer a b w = omega (arith, lt-div-mul-add {a = a} some_slots)
  ring_covers sync_committee a b w = omega (arith, lt-div-mul-add {a = a} some_slots)
  ring_covers validator_registration a b w = omega (arith, lt-div-mul-add {a = a} some_slots)
  ring_covers voluntary_exit a b w = omega (arith, lt-div-mul-add {a = a} some_slots)
  ring_covers aggregator_committee a b w = omega (arith, lt-div-mul-add {a = a} some_slots)
  ring_covers ptc_attester a b w = omega (arith, lt-div-mul-add {a = a} some_slots)

  -- For a clock whose slots last more than 4.1 seconds, at least one slot in an epoch, and a sum of
  -- the earlier slot and its time to live that does not saturate: if at one time messages for the
  -- slots a and b are both accepted in time, two different slots from the first one of a's epoch to
  -- b have different places in the ring of the role. So no entry that still counts is overwritten,
  -- and the duties of an epoch are counted exactly.
  pub window_without_collision :
      (a b x y : ℕ)
      → foreign.slot_add a (time_to_live c.role c.slots_per_epoch)
        ≡ a + time_to_live c.role c.slots_per_epoch
      → validate_slot_time foreign c a ≡ ok tt
      → validate_slot_time foreign c b ≡ ok tt
      → a / c.slots_per_epoch * c.slots_per_epoch ≤ x
      → x < y
      → y ≤ b
      → ¬ (
          x % stored_slot_count c.role c.slots_per_epoch foreign.min_seed_lookahead
          ≡ y % stored_slot_count c.role c.slots_per_epoch foreign.min_seed_lookahead)
  window_without_collision a b x y sum ha hb first order last clash =
      let covered = ring_covers c.role a b (window a b sum ha hb) in
      let same =
        same_place (stored_slot_count c.role c.slots_per_epoch foreign.min_seed_lookahead) x y
          (omega arith) (omega (arith, covered)) clash in
      omega arith
