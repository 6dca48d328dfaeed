-- ===== src/Payments/Allocation.antt =====
-- The lanes that `AllocateLane` of payments/store.go hands out.
use go_hop_exchange.Prelude.{
  ℕ, ◌+◌, ◌≤◌, ◌<◌, ◌≡◌, ap, sym, ◌∙◌, subst, List, [], ◌∷◌, ◌++◌, arith, leb, if◌then◌else◌, All,
  u64, u64_mod, ℤ,
}
use go_hop_exchange.Payments.Types.{Voucher, VoucherInfo, ChannelInfo, given, given_inj}
use go_hop_exchange.Payments.Env.{Env, after, after-given}
use go_hop_exchange.Payments.Store.{by_address, put_channel_info, allocate_lane}
use go_hop_exchange.Payments.Vouchers.{with_new_voucher}

-- Every voucher is of a lane below a bound.
abbrev pub LanesBelow : ℕ → List VoucherInfo → Type 0
LanesBelow n vs = All (λ v. v.voucher.lane < n) vs

LanesBelow-mono : (n m : ℕ) (vs : List VoucherInfo) → n ≤ m → LanesBelow n vs → LanesBelow m vs
LanesBelow-mono n m [] h b = tt
LanesBelow-mono n m (v ∷ vs) h b = (omega (arith, b.0), LanesBelow-mono n m vs h b.1)

LanesBelow-append :
    (n : ℕ) (vs : List VoucherInfo) (v : VoucherInfo)
    → LanesBelow n vs
    → v.voucher.lane < n
    → LanesBelow n (vs ++ (v ∷ []))
LanesBelow-append n [] v b h = (h, tt)
LanesBelow-append n (x ∷ vs) v b h = (b.0, LanesBelow-append n vs v b.1 h)

next_ge : (n lane : ℕ) → lane + 1 < u64_mod → n ≤ (if leb n lane then u64 (lane + 1) else n)
next_ge n lane h = ground arith

next_gt : (n lane : ℕ) → lane + 1 < u64_mod → lane < (if leb n lane then u64 (lane + 1) else n)
next_gt n lane h = ground arith

-- A new voucher keeps the lanes of the channel's vouchers below its next lane, where the lane of the
-- voucher is not the last of all.
with_new_voucher-LanesBelow :
    (sv : Voucher) (balance : ℤ) (ci : ChannelInfo)
    → sv.lane + 1 < u64_mod
    → LanesBelow ci.next_lane ci.vouchers
    → LanesBelow
        (with_new_voucher sv balance ci).next_lane
        (with_new_voucher sv balance ci).vouchers
unfolding with_new_voucher
with_new_voucher-LanesBelow sv balance ci h b =
    LanesBelow-append _ ci.vouchers _
      (LanesBelow-mono ci.next_lane _ ci.vouchers (next_ge ci.next_lane sv.lane h) b)
      (next_gt ci.next_lane sv.lane h)

-- `AllocateLane` gives a lane that no voucher of the channel has, and writes the channel with a next
-- lane that is above it and above those of the vouchers: where the lanes of the vouchers are below
-- the next lane, which is not the last of all.
allocate_lane_fresh :
    {W : Type 0} (env : Env W) (w : W) (addr lane : ℕ) (ci : ChannelInfo)
    → by_address env w addr ≡ given ci
    → LanesBelow ci.next_lane ci.vouchers
    → ci.next_lane + 1 < u64_mod
    → (allocate_lane env w addr).1 ≡ given lane
    → LanesBelow lane ci.vouchers
      × (lane < u64 (ci.next_lane + 1))
      × LanesBelow (u64 (ci.next_lane + 1)) ci.vouchers
      × ((allocate_lane env w addr).0
          ≡ (put_channel_info env w (record ci { next_lane = u64 (ci.next_lane + 1) })).0)
unfolding allocate_lane
allocate_lane_fresh env w addr lane ci found below small h =
    let (ci', here, put, moved) =
      after-given (w, by_address env w addr)
        (λ w ci.
          after (put_channel_info env w (record ci { next_lane = u64 (ci.next_lane + 1) }))
            (λ w' _. (w', given ci.next_lane)))
        h in
    let same = given_inj (sym here ∙ found) in
    let (u, done, out, moved') =
      after-given (put_channel_info env w (record ci' { next_lane = u64 (ci'.next_lane + 1) }))
        (λ w' _. (w', given ci'.next_lane)) put in
    let e : ci.next_lane ≡ lane = ap (λ q. q.next_lane) (sym same) ∙ given_inj out in
    (
      subst (λ n. LanesBelow n ci.vouchers) e below,
      omega (arith, e),
      LanesBelow-mono ci.next_lane _ ci.vouchers (omega arith) below,
      moved
          ∙ moved'
          ∙ ap (λ q. (put_channel_info env w (record q { next_lane = u64 (q.next_lane + 1) })).0)
              same,
    )
