-- ===== src/Deal/Schedule.antt =====
-- The schedule of payments that the parameters of retrieval/deal/types.go describe: an interval,
-- then one longer by the increase, and so on.
use go_hop_exchange.Prelude.{ℕ, zero, suc, ◌+◌, ◌*◌, ◌≤◌, ◌<◌, ◌≡◌, arith, u64_mod}
use native.Mathlib.Decide.{dec_lt}
use go_hop_exchange.Deal.Params.{Params}

-- The size of the interval that begins at the k-th boundary, and that boundary.
abbrev pub size_at : Params → ℕ → ℕ
size_at p zero = p.payment_interval
size_at p (suc k) = size_at p k + p.payment_interval_increase

abbrev pub boundary : Params → ℕ → ℕ
boundary p zero = 0
boundary p (suc k) = boundary p k + size_at p k

-- No sum of the loops reaches 2^64.
abbrev pub Fits : Params → ℕ → Type 0
Fits p current = current + current + p.payment_interval + 2 * p.payment_interval_increase < u64_mod

pub size-pos : (p : Params) (k : ℕ) → 0 < p.payment_interval → 0 < size_at p k
size-pos p zero h = h
size-pos p (suc k) h = omega (arith, size-pos p k h)

pub size-le :
    (p : Params) (k : ℕ)
    → size_at p k ≤ boundary p k + p.payment_interval + p.payment_interval_increase
size-le p zero = omega arith
size-le p (suc k) = omega (arith, size-le p k)

pub boundary_mono : (p : Params) (j k : ℕ) → k ≤ j → boundary p k ≤ boundary p j
boundary_mono p zero k h = let e : k ≡ 0 = omega arith in rw e (omega arith)
boundary_mono p (suc j) k h = elim (dec_lt k (suc j)) [
  | yes below ↦ omega (arith, boundary_mono p j k (omega arith))
  | no above ↦ let e : k ≡ suc j = omega arith in rw e (omega arith)
]

-- The k-th interval is the one in which `current` lies, its first byte counted.
abbrev pub InInterval : Params → ℕ → ℕ → Type 0
InInterval p current k = (boundary p k ≤ current) × (current < boundary p (suc k))

-- The same, its last byte counted and not its first.
abbrev pub InTail : Params → ℕ → ℕ → Type 0
InTail p current k = (boundary p k < current) × (current ≤ boundary p (suc k))
