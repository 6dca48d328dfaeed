-- ===== src/Payments/Lanes.antt =====
-- payments/channel.go: the lanes of a channel. A lane is what the chain, or the best voucher, says to
-- be redeemed, and its nonce. The map of lanes is an association list, which is read at the first
-- entry of a key and written there.
use go_hop_exchange.Prelude.{
  ℕ, ◌+◌, true, false, Option, none, some, List, [], ◌∷◌, ltb, ◌==◌, if◌then◌else◌, ℤ, pos, ◌+ℤ◌,
  ◌-ℤ◌, u64,
}
use go_hop_exchange.Payments.Types.{Voucher, VoucherInfo, Answer, given, failed, text}

pub record Lane : Type 0 where
  pub redeemed : ℤ
  pub nonce : ℕ

abbrev pub Lanes : Type 0
Lanes = List (ℕ × Lane)

unfoldable pub lane_at : ℕ → Lanes → Option Lane
lane_at l [] = none
lane_at l ((k, x) ∷ m) = if k == l then some x else lane_at l m

unfoldable pub set_lane : ℕ → Lane → Lanes → Lanes
set_lane l x [] = (l, x) ∷ []
set_lane l x ((k, y) ∷ m) =
    let rest = set_lane l x m in if k == l then (l, x) ∷ m else (k, y) ∷ rest

abbrev pub lane_of : Voucher → Lane
lane_of v = record { redeemed = v.amount; nonce = v.nonce }

-- Whether a voucher is passed over: the lane is there and has a higher nonce.
abbrev pub is_behind : Voucher → Option Lane → Option Lane
is_behind v none = none
is_behind v (some x) = if ltb v.nonce x.nonce then some x else none

-- One round of the loop of `laneState`.
unfoldable pub apply_voucher : Lanes → Voucher → Lanes
unfolding lane_at set_lane
apply_voucher m v = elim (is_behind v (lane_at v.lane m)) [
  | some _ ↦ m
  | none ↦ set_lane v.lane (lane_of v) m
]

-- `laneState`: the vouchers of the store, in their order, over the lanes of the chain.
unfoldable pub lane_state : Lanes → List VoucherInfo → Answer Lanes
unfolding apply_voucher
lane_state m [] = given m
lane_state m (v ∷ vs) = elim (v.voucher.merges == 0) [
  | true ↦ lane_state (apply_voucher m v.voucher) vs
  | false ↦ failed (text "paych merges not handled yet")
]

-- The loop that adds up what is redeemed, in any order.
unfoldable pub redeemed_sum : Lanes → ℤ
redeemed_sum [] = pos 0
redeemed_sum ((_, x) ∷ m) = x.redeemed +ℤ redeemed_sum m

-- `totalRedeemedWithVoucher`, behind the check for merges.
unfoldable pub with_voucher : ℤ → Voucher → Option Lane → ℤ
with_voucher total v none = total +ℤ v.amount
with_voucher total v (some x) =
    if ltb x.nonce v.nonce then total +ℤ (v.amount -ℤ x.redeemed) else total

unfoldable pub total_redeemed_with_voucher : Lanes → Voucher → Answer ℤ
unfolding with_voucher redeemed_sum lane_at
total_redeemed_with_voucher m v =
    if v.merges == 0
    then given (with_voucher (redeemed_sum m) v (lane_at v.lane m))
    else failed (text "dont currently support paych lane merges")

unfoldable pub max_nonce : ℕ → List VoucherInfo → ℕ → ℕ
max_nonce lane [] m = m
max_nonce lane (v ∷ vs) m =
    max_nonce lane vs
      (if v.voucher.lane == lane then (if ltb m v.voucher.nonce then v.voucher.nonce else m) else m)

-- `nextNonceForLane`
unfoldable pub next_nonce_for_lane : List VoucherInfo → ℕ → ℕ
unfolding max_nonce
next_nonce_for_lane vs lane = u64 (max_nonce lane vs 0 + 1)
