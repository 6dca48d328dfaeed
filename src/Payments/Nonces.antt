-- ===== src/Payments/Nonces.antt =====
-- The nonces of the vouchers that `createVoucher` of payments/channel.go makes.
use go_hop_exchange.Prelude.{
  ℕ, ◌+◌, ◌≤◌, ◌<◌, ◌≡◌, ◌≢◌, refl, sym, subst, ◌⊎◌, inl, inr, true, false, Option, none, some,
  List, [], ◌∷◌, arith, ltb, ◌==◌, if◌then◌else◌, Bool, Bool-cases, Option-cases, All, u64_mod,
  true≢false,
}
use go_hop_exchange.Payments.Types.{Voucher, VoucherInfo, Failure, given, failed, given_inj}
use go_hop_exchange.Payments.Lanes.{
  Lane, Lanes, lane_at, set_lane, lane_of, is_behind, apply_voucher, lane_state, max_nonce,
  next_nonce_for_lane,
}
use go_hop_exchange.Payments.Redeemed.{IsAhead, lane_at-set_lane}

-- A voucher is of another lane, or its nonce is lower.
abbrev pub IsBelow : ℕ → ℕ → VoucherInfo → Type 0
IsBelow lane n v = (v.voucher.lane ≢ lane) ⊎ (v.voucher.nonce < n)

-- What the loop of `nextNonceForLane` keeps after a voucher.
abbrev better : ℕ → VoucherInfo → ℕ → ℕ
better lane v m =
    if v.voucher.lane == lane then (if ltb m v.voucher.nonce then v.voucher.nonce else m) else m

better-ge : (lane : ℕ) (v : VoucherInfo) (m : ℕ) → m ≤ better lane v m
better-ge lane v m = ground arith

better_hit :
    (lane : ℕ) (v : VoucherInfo) (m : ℕ)
    → (v.voucher.lane == lane) ≡ true
    → v.voucher.nonce ≤ better lane v m
better_hit lane v m h = ground arith

other_lane : (a b : ℕ) → (a == b) ≡ false → a ≢ b
other_lane a b h = ground arith

max_nonce-ge : (lane : ℕ) (vs : List VoucherInfo) (m : ℕ) → m ≤ max_nonce lane vs m
unfolding max_nonce
max_nonce-ge lane [] m = omega arith
max_nonce-ge lane (v ∷ vs) m =
    omega (arith, max_nonce-ge lane vs (better lane v m), better-ge lane v m)

max_nonce-IsBelow :
    (lane : ℕ) (vs : List VoucherInfo) (m : ℕ) → All (IsBelow lane (max_nonce lane vs m + 1)) vs
unfolding max_nonce
max_nonce-IsBelow lane [] m = tt
max_nonce-IsBelow lane (v ∷ vs) m = (here, max_nonce-IsBelow lane vs (better lane v m))
  where
    here : IsBelow lane (max_nonce lane vs (better lane v m) + 1) v
    here = elim (Bool-cases (v.voucher.lane == lane)) [
      | inr other ↦ inl (other_lane v.voucher.lane lane other)
      | inl same ↦
          inr (omega (arith, max_nonce-ge lane vs (better lane v m), better_hit lane v m same))
    ]

-- The nonce of a lane is below a bound.
abbrev pub Lower : ℕ → Option Lane → Type 0
Lower n none = Unit {0}
Lower n (some x) = x.nonce < n

if_Lower :
    (n : ℕ) (b : Bool) (x : Lane) (o : Option Lane)
    → ((b ≡ false) ⊎ (x.nonce < n))
    → Lower n o
    → Lower n (if b then some x else o)
if_Lower n true x o (inl e) h = absurd (true≢false e)
if_Lower n true x o (inr l) h = l
if_Lower n false x o c h = h

ne_test : (a b : ℕ) → a ≢ b → (a == b) ≡ false
ne_test a b h = ground arith

apply_voucher_behind :
    (m : Lanes) (v : Voucher) (x : Lane)
    → is_behind v (lane_at v.lane m) ≡ some x
    → apply_voucher m v ≡ m
unfolding apply_voucher
apply_voucher_behind m v x h = rw (h, apply_voucher) refl

apply_voucher_ahead :
    (m : Lanes) (v : Voucher)
    → is_behind v (lane_at v.lane m) ≡ none
    → apply_voucher m v ≡ set_lane v.lane (lane_of v) m
unfolding apply_voucher
apply_voucher_ahead m v h = rw (h, apply_voucher) refl

apply_voucher-Lower :
    (lane n : ℕ) (m : Lanes) (v : VoucherInfo)
    → IsBelow lane n v
    → Lower n (lane_at lane m)
    → Lower n (lane_at lane (apply_voucher m v.voucher))
apply_voucher-Lower lane n m v below h =
    elim (Option-cases (is_behind v.voucher (lane_at v.voucher.lane m))) [
      | inr (x, behind) ↦
          subst (λ q. Lower n (lane_at lane q)) (sym (apply_voucher_behind m v.voucher x behind)) h
      | inl ahead ↦
          subst (λ q. Lower n (lane_at lane q)) (sym (apply_voucher_ahead m v.voucher ahead))
            (subst (Lower n) (sym (lane_at-set_lane lane v.voucher.lane (lane_of v.voucher) m)) (
              if_Lower n (v.voucher.lane == lane) (lane_of v.voucher) (lane_at lane m)
                (tested below) h))
    ]
  where
    tested : IsBelow lane n v → ((v.voucher.lane == lane) ≡ false) ⊎ (v.voucher.nonce < n)
    tested (inl e) = inl (ne_test v.voucher.lane lane e)
    tested (inr l) = inr l

lane_state-Lower :
    (lane n : ℕ) (m r : Lanes) (vs : List VoucherInfo)
    → All (IsBelow lane n) vs
    → Lower n (lane_at lane m)
    → lane_state m vs ≡ given r
    → Lower n (lane_at lane r)
unfolding lane_state
lane_state-Lower lane n m r [] below h e = subst (λ q. Lower n (lane_at lane q)) (given_inj e) h
lane_state-Lower lane n m r (v ∷ vs) below h e = elim (Bool-cases (v.voucher.merges == 0)) [
  | inl plain ↦
      lane_state-Lower lane n (apply_voucher m v.voucher) r vs below.1
        (apply_voucher-Lower lane n m v below.0 h) (rw (plain, lane_state) at e)
  | inr merges ↦ absurd (not_given (rw (merges, lane_state) at e))
]
  where
    not_given : {f : Failure} → failed f ≡ given r → ⊥
    not_given h = cc

Lower-IsAhead : (v : Voucher) (o : Option Lane) → Lower v.nonce o → IsAhead v o
Lower-IsAhead v none h = tt
Lower-IsAhead v (some x) h = h

-- The nonce that `nextNonceForLane` gives is above that of every stored voucher of the lane, and a
-- voucher with it is ahead of the lanes, so that its nonce is not too low: where the chain is not
-- ahead of the store, and the nonces have not reached 2^64.
pub next_nonce-IsAhead :
    (vs : List VoucherInfo) (chain lanes : Lanes) (sv : Voucher)
    → sv.nonce ≡ next_nonce_for_lane vs sv.lane
    → max_nonce sv.lane vs 0 + 1 < u64_mod
    → Lower sv.nonce (lane_at sv.lane chain)
    → lane_state chain vs ≡ given lanes
    → All (IsBelow sv.lane sv.nonce) vs × IsAhead sv (lane_at sv.lane lanes)
unfolding next_nonce_for_lane
next_nonce-IsAhead vs chain lanes sv e small low h =
    let n : sv.nonce ≡ max_nonce sv.lane vs 0 + 1 = omega (arith, e) in
    let below = subst (λ k. All (IsBelow sv.lane k) vs) (sym n) (max_nonce-IsBelow sv.lane vs 0) in
    (below, Lower-IsAhead sv _ (lane_state-Lower sv.lane sv.nonce chain lanes vs below low h))
