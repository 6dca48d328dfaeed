-- ===== src/Deal/Intervals.antt =====
-- `NextInterval` and `IntervalLowerBound` of retrieval/deal/types.go against the schedule.
use go_hop_exchange.Prelude.{
  ℕ, zero, suc, ◌+◌, ◌≤◌, ◌<◌, ◌≡◌, refl, ap, ◌∙◌, inl, inr, none, some, arith, ltb, leb,
  Bool-cases, ltb→lt, leb→le, lt→ltb, le→leb, u64,
}
use native.Mathlib.Decide.{dec_lt}
use go_hop_exchange.Deal.Params.{
  Params, lower_bound_loop, next_loop, interval_lower_bound, next_interval,
}
use go_hop_exchange.Deal.Schedule.{
  size_at, boundary, Fits, size-pos, size-le, boundary_mono, InInterval, InTail,
}

next_round :
    (p : Params) (current k : ℕ)
    → Fits p current
    → boundary p k ≤ current
    → (u64 (boundary p k + size_at p k) ≡ boundary p (suc k))
      × (u64 (size_at p k + p.payment_interval_increase) ≡ size_at p (suc k))
next_round p current k fits h = (omega (arith, size-le p k), omega (arith, size-le p k))

next_loop_more :
    (fuel : ℕ) (p : Params) (current k : ℕ)
    → Fits p current
    → boundary p k ≤ current
    → next_loop (suc fuel) p.payment_interval_increase current (boundary p k) (size_at p k)
      ≡ next_loop fuel p.payment_interval_increase current (boundary p (suc k)) (size_at p (suc k))
unfolding next_loop
next_loop_more fuel p current k fits h =
    let (sum, size) = next_round p current k fits h in rw (le→leb _ _ h, next_loop) (rw (sum, size))

next_loop_lem :
    (fuel : ℕ) (p : Params) (current k : ℕ)
    → Fits p current
    → 0 < size_at p (suc k)
    → boundary p k ≤ current
    → 0 < fuel
    → current + 1 < boundary p (suc k) + fuel
    → (j : ℕ) × (next_loop fuel p.payment_interval_increase current
          (boundary p (suc k))
          (size_at p (suc k))
        ≡ some (boundary p (suc j)))
      × InInterval p current j
unfolding next_loop
next_loop_lem zero p current k fits grows low some_fuel enough = absurd (omega arith)
next_loop_lem (suc fuel) p current k fits grows low some_fuel enough =
    elim (Bool-cases (leb (boundary p (suc k)) current)) [
      | inl more ↦
          let within = leb→le _ _ more in
          let (j, run, inside) =
            next_loop_lem fuel p current (suc k) fits (omega arith) within (omega arith)
              (omega arith) in
          (j, next_loop_more fuel p current (suc k) fits within ∙ run, inside)
      | inr done ↦ (k, rw (done, next_loop), (low, ground arith))
    ]

lower_bound_loop_more :
    (fuel : ℕ) (p : Params) (current lower k : ℕ)
    → Fits p current
    → boundary p k < current
    → lower_bound_loop
        (suc fuel)
        p.payment_interval_increase
        current
        lower
        (boundary p k)
        (size_at p k)
      ≡ lower_bound_loop fuel p.payment_interval_increase current
          (boundary p k)
          (boundary p (suc k))
          (size_at p (suc k))
unfolding lower_bound_loop
lower_bound_loop_more fuel p current lower k fits h =
    let (sum, size) = next_round p current k fits (omega arith) in
    rw (lt→ltb _ _ h, lower_bound_loop) (rw (sum, size))

lower_bound_loop_lem :
    (fuel : ℕ) (p : Params) (current k : ℕ)
    → Fits p current
    → 0 < size_at p (suc k)
    → boundary p k < current
    → 0 < fuel
    → current + 1 < boundary p (suc k) + fuel
    → (j : ℕ) × (lower_bound_loop fuel p.payment_interval_increase current
          (boundary p k)
          (boundary p (suc k))
          (size_at p (suc k))
        ≡ some (boundary p j))
      × InTail p current j
unfolding lower_bound_loop
lower_bound_loop_lem zero p current k fits grows low some_fuel enough = absurd (omega arith)
lower_bound_loop_lem (suc fuel) p current k fits grows low some_fuel enough =
    elim (Bool-cases (ltb (boundary p (suc k)) current)) [
      | inl more ↦
          let within = ltb→lt _ _ more in
          let (j, run, inside) =
            lower_bound_loop_lem fuel p current (suc k) fits (omega arith) within (omega arith)
              (omega arith) in
          (j, lower_bound_loop_more fuel p current _ (suc k) fits within ∙ run, inside)
      | inr done ↦ (k, rw (done, lower_bound_loop), (low, ground arith))
    ]

add_three : (n : ℕ) → n + 3 ≡ suc (n + 2)
add_three n = omega arith

-- `NextInterval` returns, and what it returns is the first boundary of the schedule beyond
-- `current`: if the parameters make any progress at all and the sums stay below 2^64.
pub next_interval-boundary :
    (p : Params) (current : ℕ)
    → 0 < p.payment_interval + p.payment_interval_increase
    → Fits p current
    → (j : ℕ) × (next_interval p current ≡ some (boundary p (suc j))) × InInterval p current j
unfolding next_interval
next_interval-boundary p current h fits =
    let (j, run, inside) =
      next_loop_lem (current + 2) p current 0 fits h (omega arith) (omega arith) (omega arith) in
    (
      j,
      rw (add_three current) (next_loop_more (current + 2) p current 0 fits (omega arith) ∙ run),
      inside,
    )

-- `IntervalLowerBound` returns, and what it returns is the last boundary before `current`, under
-- the same conditions and for a `current` that is not 0.
interval_lower_bound-boundary :
    (p : Params) (current : ℕ)
    → 0 < current
    → 0 < p.payment_interval + p.payment_interval_increase
    → Fits p current
    → (j : ℕ) × (interval_lower_bound p current ≡ some (boundary p j)) × InTail p current j
unfolding interval_lower_bound
interval_lower_bound-boundary p current some_current h fits =
    let (j, run, inside) =
      lower_bound_loop_lem (current + 2) p current 0 fits h (omega arith) (omega arith)
        (omega arith) in
    (
      j,
      rw (add_three current)
          (lower_bound_loop_more (current + 2) p current 0 0 fits (omega arith) ∙ run),
      inside,
    )

-- Boundaries that surround one number are the same.
same_interval :
    (p : Params) (i j : ℕ)
    → 0 < p.payment_interval
    → boundary p i < boundary p (suc j)
    → boundary p j < boundary p (suc i)
    → i ≡ j
same_interval p i j h below above = elim (dec_lt i j) [
  | yes lt ↦ absurd (omega (arith, boundary_mono p j (suc i) lt))
  | no ge ↦ elim (dec_lt j i) [
    | yes lt ↦ absurd (omega (arith, boundary_mono p i (suc j) lt))
    | no ge' ↦ omega arith
  ]
]

-- At the boundary k + 1 of the schedule the two loops return its neighbours: the lower bound is
-- boundary k and the next interval ends at boundary k + 2. The interval is not 0 and the sums stay
-- below 2^64.
pub interval-neighbours :
    (p : Params) (k : ℕ)
    → 0 < p.payment_interval
    → Fits p (boundary p (suc k))
    → (interval_lower_bound p (boundary p (suc k)) ≡ some (boundary p k))
      × (next_interval p (boundary p (suc k)) ≡ some (boundary p (suc (suc k))))
interval-neighbours p k h fits =
    let here = boundary p (suc k) in
    let (i, low, below) =
      interval_lower_bound-boundary p here (omega (arith, size-pos p k h)) (omega arith) fits in
    let (j, up, above) = next_interval-boundary p here (omega arith) fits in
    let e =
      same_interval p i k h (omega (arith, below))
        (omega (arith, size-pos p k h, below, size-pos p i h)) in
    let d =
      same_interval p j (suc k) h (omega (arith, above, size-pos p (suc k) h))
        (omega (arith, above)) in
    (low ∙ ap (λ n. some (boundary p n)) e, up ∙ ap (λ n. some (boundary p (suc n))) d)

pub next_loop_stuck : (fuel current : ℕ) → next_loop fuel 0 current 0 0 ≡ none
unfolding next_loop
next_loop_stuck zero current = refl
next_loop_stuck (suc fuel) current =
    rw (le→leb 0 current (omega arith), next_loop) (next_loop_stuck fuel current)

lower_bound_loop_stuck :
    (fuel current : ℕ) → 0 < current → lower_bound_loop fuel 0 current 0 0 0 ≡ none
unfolding lower_bound_loop
lower_bound_loop_stuck zero current h = refl
lower_bound_loop_stuck (suc fuel) current h =
    rw (lt→ltb 0 current h, lower_bound_loop) (lower_bound_loop_stuck fuel current h)

-- With an interval of 0 that does not grow neither loop ends at a `current` that is not 0, however
-- many rounds it is given.
interval_loops_diverge :
    (p : Params) (fuel current : ℕ)
    → p.payment_interval ≡ 0
    → p.payment_interval_increase ≡ 0
    → 0 < current
    → (next_loop fuel p.payment_interval_increase current 0 p.payment_interval ≡ none)
      × (lower_bound_loop fuel p.payment_interval_increase current 0 0 p.payment_interval ≡ none)
interval_loops_diverge p fuel current no_interval no_increase h =
    rw (no_interval, no_increase)
      (next_loop_stuck fuel current, lower_bound_loop_stuck fuel current h)
