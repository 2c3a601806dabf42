-- ===== src/Fork/Active.antt =====
-- The active fork of a schedule: anchor/common/fork/src/schedule.rs.
use mathlib.Core.Path.{subst}
use anchor.Base.{
  All-imp, All-keep, ℕ, suc, ◌≤◌, ◌<◌, ◌≡◌, sym, ap, refl, inl, inr, true, List, [], ◌∷◌, Option,
  none, some, arith, leb, ◌==◌, if◌then◌else◌, keep, Option-cases, All, Bool-cases,
}
use anchor.Base.Result.{ok}
use anchor.Fork.{
  rank, ForkConfig, ForkSchedule, alan_epoch, from_fork_configs, latest_fork, active_fork_config,
}

-- The place of the fork, with 0 for none.
abbrev pub place : Option ForkConfig → ℕ
place none = 0
place (some c) = suc (rank c.fork)

-- The better of the best so far and the next configuration.
later : Option ForkConfig → ForkConfig → ForkConfig
later none c = c
later (some b) c = if leb (rank b.fork) (rank c.fork) then c else b

latest_fork-cons :
    (o : Option ForkConfig) (c : ForkConfig) (cs : List ForkConfig)
    → latest_fork o (c ∷ cs) ≡ latest_fork (some (later o c)) cs
unfolding latest_fork later
latest_fork-cons none c cs = refl
latest_fork-cons (some b) c cs = refl

place-later :
    (o : Option ForkConfig) (c : ForkConfig)
    → (place o ≤ place (some (later o c))) × (suc (rank c.fork) ≤ place (some (later o c)))
unfolding later
place-later none c = (omega arith, omega arith)
place-later (some b) c = ground arith

place-later_le :
    (o : Option ForkConfig) (c : ForkConfig) (n : ℕ)
    → place o ≤ n
    → suc (rank c.fork) ≤ n
    → place (some (later o c)) ≤ n
unfolding later
place-later_le none c n h k = k
place-later_le (some b) c n h k = ground arith

latest_fork_mono :
    (o o' : Option ForkConfig) (e e' : ℕ) (cs : List ForkConfig)
    → e ≤ e'
    → place o ≤ place o'
    → place (latest_fork o (keep (λ c. leb c.epoch e) cs))
      ≤ place (latest_fork o' (keep (λ c. leb c.epoch e') cs))
unfolding latest_fork
latest_fork_mono o o' e e' [] l h = h
latest_fork_mono o o' e e' (c ∷ cs) l h =
    let (keeps, here) = place-later o' c in
    elim (Bool-cases (leb c.epoch e)) [
      | inl now ↦
          let soon : leb c.epoch e' ≡ true = ground arith in
          rw
            (
              now,
              soon,
              latest_fork-cons o c (keep (λ c. leb c.epoch e) cs),
              latest_fork-cons o' c (keep (λ c. leb c.epoch e') cs),
            )
            (latest_fork_mono (some (later o c)) (some (later o' c)) e e' cs l
              (place-later_le o c _ (omega arith) here))
      | inr before ↦ elim (Bool-cases (leb c.epoch e')) [
        | inl soon ↦
            rw (before, soon, latest_fork-cons o' c (keep (λ c. leb c.epoch e') cs))
              (latest_fork_mono o (some (later o' c)) e e' cs l (omega arith))
        | inr after ↦ rw (before, after) (latest_fork_mono o o' e e' cs l h)
      ]
    ]

latest_fork-from :
    (o : Option ForkConfig) (cs : List ForkConfig) → place o ≤ place (latest_fork o cs)
unfolding latest_fork
latest_fork-from o [] = omega arith
latest_fork-from o (c ∷ cs) =
    rw (latest_fork-cons o c cs)
      (omega (arith, (place-later o c).0, latest_fork-from (some (later o c)) cs))

latest_fork-top :
    (o : Option ForkConfig) (cs : List ForkConfig)
    → All (λ c. suc (rank c.fork) ≤ place (latest_fork o cs)) cs
latest_fork-top o [] = tt
latest_fork-top o (c ∷ cs) =
    subst (λ x. All (λ a. suc (rank a.fork) ≤ place x) (c ∷ cs)) (sym (latest_fork-cons o c cs))
      (
        omega (arith, (place-later o c).1, latest_fork-from (some (later o c)) cs),
        latest_fork-top (some (later o c)) cs,
      )

-- The property of the configuration, if there is one.
abbrev Holding : (ForkConfig → Type 0) → Option ForkConfig → Type 0
Holding P none = Unit
Holding P (some c) = P c

latest_fork-Holding :
    (P : ForkConfig → Type 0) (o : Option ForkConfig) (cs : List ForkConfig)
    → Holding P o
    → All P cs
    → Holding P (latest_fork o cs)
unfolding latest_fork later
latest_fork-Holding P o [] h a = h
latest_fork-Holding P none (c ∷ cs) h a = latest_fork-Holding P (some c) cs a.0 a.1
latest_fork-Holding P (some x) (c ∷ cs) h a = elim (Bool-cases (leb (rank x.fork) (rank c.fork))) [
  | inl up ↦ rw up (latest_fork-Holding P (some c) cs a.0 a.1)
  | inr down ↦ rw down (latest_fork-Holding P (some x) cs h a.1)
]

alan-place :
    (o : Option ForkConfig) (e : ℕ) (cs : List ForkConfig)
    → alan_epoch cs ≡ some 0
    → 0 < place (latest_fork o (keep (λ c. leb c.epoch e) cs))
unfolding alan_epoch
alan-place o e [] h = absurd (ground arith)
alan-place o e (c ∷ cs) h = elim (Bool-cases (leb c.epoch e)) [
  | inl now ↦
      rw (now, latest_fork-cons o c (keep (λ c. leb c.epoch e) cs))
        (omega (arith, latest_fork-from (some (later o c)) (keep (λ c. leb c.epoch e) cs)))
  | inr before ↦ rw before (alan-place o e cs (ground arith))
]

active-some :
    (s : ForkSchedule) (e : ℕ)
    → 0 < place (active_fork_config s e)
    → (c : ForkConfig) × (active_fork_config s e ≡ some c)
      × (c.epoch ≤ e)
      × All (λ x. rank x.fork ≤ rank c.fork) (keep (λ x. leb x.epoch e) s.configs)
unfolding active_fork_config
active-some s e p = elim (Option-cases (active_fork_config s e)) [
  | inl missing ↦ absurd (ground (arith, missing))
  | inr (c, found) ↦
      let begun = keep (λ (x : ForkConfig). leb x.epoch e) s.configs in
      let activated : c.epoch ≤ e = subst (Holding (λ x. x.epoch ≤ e)) found (
        latest_fork-Holding (λ x. x.epoch ≤ e) none begun tt
          (All-imp (λ x. leb x.epoch e ≡ true) (λ x. x.epoch ≤ e) begun (λ x h. ground arith)
            (All-keep (λ x. leb x.epoch e) s.configs))) in
      (
        c,
        found,
        activated,
        All-imp (λ x. suc (rank x.fork) ≤ place (latest_fork none begun))
            (λ x. rank x.fork ≤ rank c.fork) begun (λ x h. omega (arith, h, ap place found))
            (latest_fork-top none begun),
      )
]

-- A schedule that `from_fork_configs` builds has an active fork at every epoch: one that has
-- begun, and no fork that has begun is later.
pub active_fork_config_lem :
    (raw : List ForkConfig) (s : ForkSchedule) (e : ℕ)
    → from_fork_configs raw ≡ ok s
    → (c : ForkConfig) × (active_fork_config s e ≡ some c)
      × (c.epoch ≤ e)
      × All (λ x. rank x.fork ≤ rank c.fork) (keep (λ x. leb x.epoch e) s.configs)
unfolding from_fork_configs active_fork_config
active_fork_config_lem raw s e h = elim (Option-cases (alan_epoch raw)) [
  | inl missing ↦ absurd (ground (arith, missing))
  | inr (n, found) ↦ elim (Bool-cases (n == 0)) [
    | inr late ↦ absurd (ground (arith, found, late))
    | inl zero_epoch ↦
        let same : s.configs ≡ raw = ground (arith, found, zero_epoch) in
        active-some s e (rw same (alan-place none e raw (ground (arith, found))))
  ]
]

-- The active fork never goes back: at a later epoch it is the same or a later fork.
pub active_fork_config_mono :
    (s : ForkSchedule) (e e' : ℕ) (c c' : ForkConfig)
    → e ≤ e'
    → active_fork_config s e ≡ some c
    → active_fork_config s e' ≡ some c'
    → rank c.fork ≤ rank c'.fork
unfolding active_fork_config
active_fork_config_mono s e e' c c' l h h' =
    let up : place (active_fork_config s e) ≤ place (active_fork_config s e') =
      latest_fork_mono none none e e' s.configs l (omega arith) in
    omega (arith, rw (h, h') at up)
