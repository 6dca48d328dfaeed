-- ===== src/Index/Capacity.antt =====
-- The capacity that exchange/index.go reports.
use go_hop_exchange.Prelude.{
  ◌+◌, ◌-◌, ◌≤◌, ◌<◌, ◌≡◌, ◌⊎◌, inl, inr, arith, u64_mod, sub_u64, sub_u64_le, lt→ltb, le→ltb,
}
use native.Mathlib.Decide.{dec_lt}
use go_hop_exchange.Index.Refs.{Index, available}

module _ {W : Type 0} (idx : Index W) where
  -- `Available` within the upper bound: 0 as soon as the size is above the lower bound, and otherwise
  -- the rest up to the upper bound. The bounds are in order and below 2^64.
  available-within :
      idx.lb ≤ idx.ub
      → idx.size ≤ idx.ub
      → idx.ub < u64_mod
      → ((idx.lb < idx.size) × (available idx ≡ 0))
        ⊎ ((idx.size ≤ idx.lb) × (available idx ≡ idx.ub - idx.size))
  unfolding available
  available-within order within small =
      let margin = sub_u64_le idx.ub idx.lb order small in
      let rest = sub_u64_le idx.ub idx.size within small in
      elim (dec_lt idx.lb idx.size) [
        | yes above ↦
            let short = lt→ltb (idx.ub - idx.size) (idx.ub - idx.lb) (omega arith) in
            inl (above, rw (margin, rest, short))
        | no below ↦
            let enough = le→ltb (idx.ub - idx.size) (idx.ub - idx.lb) (omega arith) in
            inr (omega arith, rw (margin, rest, enough))
      ]

  wraps :
      idx.ub < idx.size → idx.size < u64_mod → sub_u64 idx.ub idx.size ≡ idx.ub + u64_mod - idx.size
  wraps over small = omega arith

  -- `Available` above the upper bound does not say that the index is full: the difference wraps, and
  -- what it reports is 2^64 less the excess. The bounds are in order and the size is below 2^64.
  available_overfull :
      idx.lb ≤ idx.ub
      → idx.ub < idx.size
      → idx.size < u64_mod
      → available idx ≡ idx.ub + u64_mod - idx.size
  unfolding available
  available_overfull order over small =
      let margin = sub_u64_le idx.ub idx.lb order (omega arith) in
      let rest = wraps over small in
      let enough = le→ltb (idx.ub + u64_mod - idx.size) (idx.ub - idx.lb) (omega arith) in
      rw (margin, rest, enough)
