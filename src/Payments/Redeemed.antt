-- ===== src/Payments/Redeemed.antt =====
-- What the lanes of payments/channel.go redeem together, and what a voucher adds to it.
use go_hop_exchange.Prelude.{
  ℕ, ◌<◌, ◌≡◌, refl, ap, sym, inl, inr, true, Option, none, some, List, [], ◌∷◌, ◌++◌, arith, ◌==◌,
  if◌then◌else◌, le→ltb, lt→ltb, Bool-cases, pos_part, neg_part, ◌+ℤ◌, int_laws,
}
use go_hop_exchange.Payments.Types.{Voucher, VoucherInfo, given, ◌>>=◌}
use go_hop_exchange.Payments.Lanes.{
  Lane, Lanes, lane_at, set_lane, lane_of, apply_voucher, lane_state, redeemed_sum, with_voucher,
  total_redeemed_with_voucher, is_behind,
}

pub lane_at-set_lane :
    (j l : ℕ) (x : Lane) (m : Lanes)
    → lane_at j (set_lane l x m) ≡ (if l == j then some x else lane_at j m)
unfolding lane_at set_lane
lane_at-set_lane j l x [] = refl
lane_at-set_lane j l x ((k, y) ∷ m) = ground (arith, lane_at-set_lane j l x m)

pub redeemed-set_lane_new :
    (l : ℕ) (x : Lane) (m : Lanes)
    → lane_at l m ≡ none
    → redeemed_sum (set_lane l x m) ≡ redeemed_sum m +ℤ x.redeemed
unfolding lane_at set_lane redeemed_sum
redeemed-set_lane_new l x [] h = omega int_laws
redeemed-set_lane_new l x (y ∷ m) h = grind (int_laws, redeemed-set_lane_new l x m)

pub redeemed-set_lane :
    (l : ℕ) (x old : Lane) (m : Lanes)
    → lane_at l m ≡ some old
    → redeemed_sum (set_lane l x m) +ℤ old.redeemed ≡ redeemed_sum m +ℤ x.redeemed
unfolding lane_at set_lane redeemed_sum
redeemed-set_lane l x old [] h = cc
redeemed-set_lane l x old (y ∷ m) h = grind (int_laws, redeemed-set_lane l x old m)

-- A voucher is ahead of the lanes: its lane is new, or has a lower nonce.
abbrev pub IsAhead : Voucher → Option Lane → Type 0
IsAhead v none = Unit {0}
IsAhead v (some x) = x.nonce < v.nonce

ahead_total :
    (m : Lanes) (v : Voucher) (o : Option Lane)
    → lane_at v.lane m ≡ o
    → IsAhead v o
    → with_voucher (redeemed_sum m) v o ≡ redeemed_sum (set_lane v.lane (lane_of v) m)
unfolding with_voucher
ahead_total m v none e h = sym (redeemed-set_lane_new v.lane (lane_of v) m e)
ahead_total m v (some x) e h =
    let q = redeemed-set_lane v.lane (lane_of v) x m e in
    rw (lt→ltb _ _ h) (omega (int_laws, ap pos_part q, ap neg_part q))

-- `totalRedeemedWithVoucher` of a voucher that is ahead is what the lanes redeem once the voucher has
-- taken the place of its lane; it is no error for a voucher without merges.
pub total_redeemed-set_lane :
    (m : Lanes) (v : Voucher)
    → v.merges ≡ 0
    → IsAhead v (lane_at v.lane m)
    → total_redeemed_with_voucher m v ≡ given (redeemed_sum (set_lane v.lane (lane_of v) m))
unfolding total_redeemed_with_voucher
total_redeemed-set_lane m v plain h =
    rw plain (ap given (ahead_total m v (lane_at v.lane m) refl h))

pub lane_state-append :
    (m : Lanes) (vs ws : List VoucherInfo)
    → lane_state m (vs ++ ws) ≡ (lane_state m vs >>= λ m'. lane_state m' ws)
unfolding lane_state
lane_state-append m [] ws = refl
lane_state-append m (v ∷ vs) ws = elim (Bool-cases (v.voucher.merges == 0)) [
  | inl plain ↦ rw (plain, lane_state) (lane_state-append (apply_voucher m v.voucher) vs ws)
  | inr merges ↦ rw (merges, lane_state)
]

ahead_behind : (v : Voucher) (o : Option Lane) → IsAhead v o → is_behind v o ≡ none
ahead_behind v none h = refl
ahead_behind v (some x) h = rw (le→ltb v.nonce x.nonce (omega arith))

-- A voucher that is ahead takes the place of its lane.
pub lane_state_ahead :
    (m : Lanes) (v : VoucherInfo)
    → v.voucher.merges ≡ 0
    → IsAhead v.voucher (lane_at v.voucher.lane m)
    → lane_state m (v ∷ []) ≡ given (set_lane v.voucher.lane (lane_of v.voucher) m)
unfolding lane_state apply_voucher
lane_state_ahead m v plain h =
    let e : (v.voucher.merges == 0) ≡ true = ap (λ n. n == 0) plain in
    rw (e, lane_state)
      (rw (ahead_behind v.voucher (lane_at v.voucher.lane m) h, apply_voucher) refl)
