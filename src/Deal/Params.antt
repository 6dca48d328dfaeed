-- ===== src/Deal/Params.antt =====
-- retrieval/deal/types.go: the parameters of a deal and its two interval loops. The loops run on
-- fuel: `none` is a loop that has not ended after `current + 3` rounds.
use go_hop_exchange.Prelude.{ℕ, zero, suc, ◌+◌, true, false, Option, none, some, ltb, leb, ℤ, u64}

pub record Params : Type 0 where
  pub selector : Option ℕ  -- the encoded selector, `none` for nil or CBOR null
  pub piece_cid : Option ℕ
  pub price_per_byte : ℤ
  pub payment_interval : ℕ
  pub payment_interval_increase : ℕ
  pub unseal_price : ℤ

pub record Proposal : Type 0 where
  pub payload_cid : ℕ
  pub id : ℕ
  pub params : Params
  pub open params use *

-- `for target < currentInterval { lowerBound = target; target += size; size += increase }`
unfoldable pub lower_bound_loop : ℕ → ℕ → ℕ → ℕ → ℕ → ℕ → Option ℕ
lower_bound_loop zero increase current lower target size = none
lower_bound_loop (suc fuel) increase current lower target size = elim (ltb target current) [
  | true ↦
      lower_bound_loop fuel increase current target (u64 (target + size)) (u64 (size + increase))
  | false ↦ some lower
]

-- `for nextInterval <= currentInterval { nextInterval += size; size += increase }`
unfoldable pub next_loop : ℕ → ℕ → ℕ → ℕ → ℕ → Option ℕ
next_loop zero increase current next size = none
next_loop (suc fuel) increase current next size = elim (leb next current) [
  | true ↦ next_loop fuel increase current (u64 (next + size)) (u64 (size + increase))
  | false ↦ some next
]

unfoldable pub interval_lower_bound : Params → ℕ → Option ℕ
unfolding lower_bound_loop
interval_lower_bound p current =
    lower_bound_loop (current + 3) p.payment_interval_increase current 0 0 p.payment_interval

unfoldable pub next_interval : Params → ℕ → Option ℕ
unfolding next_loop
next_interval p current =
    next_loop (current + 3) p.payment_interval_increase current 0 p.payment_interval
