-- ===== src/Payments/Solvency.antt =====
-- What `addVoucherUnlocked` of payments/channel.go promises: the vouchers of a channel never redeem
-- more than its actor holds.
use go_hop_exchange.Prelude.{
  ℕ, ◌≡◌, sym, ◌∙◌, subst, inl, inr, false, Option, none, some, arith, leb, Bool-cases, ℤ, ◌≤ℤ◌,
  ◌<◌,
}
use go_hop_exchange.Payments.Types.{
  Voucher, Failure, given, failed, wrap, bind-given, wrap-given, given_inj,
}
use go_hop_exchange.Payments.Lanes.{Lane, Lanes, lane_at, set_lane, lane_of, redeemed_sum}
use go_hop_exchange.Payments.Redeemed.{IsAhead, total_redeemed-set_lane}
use go_hop_exchange.Payments.Vouchers.{check_lane, check_balance, check_against}

leb-false : (a b : ℕ) → leb a b ≡ false → b < a
leb-false a b h = ground arith

pub check_lane-IsAhead :
    (sv : Voucher) (o : Option Lane) {u : Unit {0}} → check_lane sv o ≡ given u → IsAhead sv o
unfolding check_lane
check_lane-IsAhead sv none h = tt
check_lane-IsAhead sv (some x) h = elim (Bool-cases (leb sv.nonce x.nonce)) [
  | inl low ↦ absurd (given_fails (sym (rw low at h)))
  | inr high ↦ leb-false sv.nonce x.nonce high
]
  where
    given_fails : {e : Failure} {u : Unit {0}} → given u ≡ failed e → ⊥
    given_fails h = cc

check_balance-given :
    (balance total : ℤ) (sv : Voucher) {u : Unit {0}}
    → check_balance balance sv total ≡ given u
    → (total ≤ℤ balance) × (sv.merges ≡ 0)
unfolding check_balance
check_balance-given balance total sv h = ground arith

-- What the checks of a voucher against the lanes and the balance ensure.
pub record Fits (lanes : Lanes) (balance : ℤ) (sv : Voucher) : Type 0 where
  pub plain : sv.merges ≡ 0
  pub ahead : IsAhead sv (lane_at sv.lane lanes)
  pub covered : redeemed_sum (set_lane sv.lane (lane_of sv) lanes) ≤ℤ balance

pub check_against-Fits :
    (lanes : Lanes) (balance : ℤ) (sv : Voucher) (r : Lanes × ℤ)
    → check_against lanes balance sv ≡ given r
    → Fits lanes balance sv × ((lanes, balance) ≡ r)
unfolding check_against
check_against-Fits lanes balance sv r h =
    let (u, lane_ok, h') = bind-given (check_lane sv (lane_at sv.lane lanes)) _ h in
    let (total, totalled, h'') = bind-given (wrap "totalRedeemedWithVoucher" _) _ h' in
    let (u', funds, same) = bind-given (check_balance balance sv total) _ h'' in
    let (within, plain) = check_balance-given balance total sv funds in
    let ahead = check_lane-IsAhead sv (lane_at sv.lane lanes) lane_ok in
    let e =
      given_inj (sym (total_redeemed-set_lane lanes sv plain ahead) ∙ wrap-given _ _ totalled) in
    (
      record { plain = plain; ahead = ahead; covered = subst (λ t. t ≤ℤ balance) (sym e) within },
      given_inj same,
    )
