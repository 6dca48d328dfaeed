-- ===== src/Payments/Creation.antt =====
-- What `createVoucher` of payments/channel.go reports where the funds of the channel do not suffice.
use Prim.Native.String.{String}
use go_hop_exchange.Prelude.{
  Option-cases, ℕ, ◌≡◌, refl, ap, sym, ◌∙◌, inl, inr, Option, none, some, ltb_ℤ, ◌==◌, Bool-cases,
  none≢some, ℤ, pos, ◌+ℤ◌, ◌<ℤ◌,
}
use go_hop_exchange.Payments.Types.{
  Voucher, ChannelInfo, not_tracked, insufficient_funds, text, wrapped, Answer, given, failed,
  crashed, ◌>>=◌, wrap, bind-given, wrap-given, given_inj, Answer-cases,
}
use go_hop_exchange.Payments.Env.{Env, of_result, of_error, after-given}
use go_hop_exchange.Payments.Lanes.{Lanes, lane_at, set_lane, lane_of, redeemed_sum}
use go_hop_exchange.Payments.Store.{
  by_address, put_channel_info, put_with_id, marshall_channel_info,
}
use go_hop_exchange.Payments.Messages.{load_actor_state}
use go_hop_exchange.Payments.Vouchers.{
  VoucherCreateResult, created, check_against, contains_voucher, with_new_voucher, delta_to,
  paych_lanes, read_lanes, check_voucher_valid, append_voucher, add_to_channel, add_voucher,
  signed_voucher, create_voucher,
}
use go_hop_exchange.Payments.Admission.{Read, read_lanes-Read}
use go_hop_exchange.Payments.Shortfall.{
  failure, IsShort, NeverShort, of_result-NeverShort, of_error-NeverShort, wrap-NeverShort,
  given-NeverShort, bind-NeverShort, bind-IsShort, after-IsShort, check_against-IsShort,
}

created-none :
    (sv : Voucher) (a : Answer ℤ) (r : VoucherCreateResult)
    → created sv a ≡ given r
    → r.voucher ≡ none
    → IsShort r.shortfall a
unfolding created
created-none sv (given d) r h e =
    absurd (none≢some (sym e ∙ sym (ap (λ q. q.voucher) (given_inj h))))
created-none sv (failed (insufficient_funds s)) r h e =
    ap (λ q. some (insufficient_funds q.shortfall)) (given_inj h)
created-none sv (failed not_tracked) r h e = cc
created-none sv (failed (text t)) r h e = cc
created-none sv (failed (wrapped t f)) r h e = cc
created-none sv crashed r h e = cc

written-NeverShort :
    (e : Option String) (ci : ChannelInfo) → NeverShort (of_error e >>= λ _. given ci)
written-NeverShort none ci s h = cc
written-NeverShort (some e) ci s h = cc

module _ {W : Type 0} (env : Env W) where
  put_with_id-NeverShort : (w : W) (ci : ChannelInfo) → NeverShort (put_with_id env w ci).1
  unfolding put_with_id
  put_with_id-NeverShort w ci s h =
      let stored = marshall_channel_info env.empty_addr ci in
      elim (Option-cases (env.encode_channel stored)) [
        | inl fine ↦
            written-NeverShort (env.put_channel w ci.channel_id stored).1 stored s
              (rw (fine, put_with_id) at h)
        | inr (e, bad) ↦ not_text (rw (bad, put_with_id) at h)
      ]
    where
      not_text :
          {t : String} → IsShort {A = ChannelInfo} s (failed (wrapped "marshalling" (text t))) → ⊥
      not_text h = cc

  put_channel_info-NeverShort :
      (w : W) (ci : ChannelInfo) → NeverShort (put_channel_info env w ci).1
  unfolding put_channel_info
  put_channel_info-NeverShort w ci s h = elim (Bool-cases (ci.channel_id == 0)) [
    | inl new ↦
        put_with_id-NeverShort (env.new_uuid w).0 (record ci { channel_id = (env.new_uuid w).1 }) s
          (rw new at h)
    | inr old ↦ put_with_id-NeverShort w ci s (rw old at h)
  ]

  append_voucher-NeverShort :
      (w : W) (ci : ChannelInfo) (sv : Voucher) (min_delta : ℤ) (r : Lanes × ℤ)
      → NeverShort (append_voucher env w ci sv min_delta r).1
  unfolding append_voucher
  append_voucher-NeverShort w ci sv min_delta (lanes, balance) s h =
      elim (Bool-cases (ltb_ℤ (delta_to sv (lane_at sv.lane lanes)) min_delta)) [
        | inl low ↦ not_text (rw low at h)
        | inr enough ↦
            let (a, put, bad, _) =
              after-IsShort (put_channel_info env w (with_new_voucher sv balance ci))
                (λ w' _. (w', given (delta_to sv (lane_at sv.lane lanes)))) s
                (put_channel_info-NeverShort w _) (rw enough at h) in
            given-NeverShort (delta_to sv (lane_at sv.lane lanes)) s bad
      ]
    where
      not_text : {t : String} → IsShort {A = ℤ} s (failed (text t)) → ⊥
      not_text h = cc

  module _ (w : W) (addr : ℕ) (sv : Voucher) where
    read_lanes-NeverShort : NeverShort (read_lanes env w addr sv)
    unfolding read_lanes
    read_lanes-NeverShort =
        bind-NeverShort (of_result (env.get_actor w addr)) _ (of_result-NeverShort _) λ act.
          bind-NeverShort (wrap "loadActorState" (load_actor_state env w addr)) _
            (wrap-NeverShort _ _)
            λ st.
              bind-NeverShort (of_result (env.account_key w st.from)) _ (of_result-NeverShort _)
                λ from.
                  bind-NeverShort (of_result (env.signing_bytes sv)) _ (of_result-NeverShort _)
                    λ bytes.
                      bind-NeverShort (of_error (env.verify sv from bytes)) _
                        (of_error-NeverShort _)
                        λ _.
                          bind-NeverShort (wrap "laneState" (paych_lanes env w st addr)) _
                            (wrap-NeverShort _ _)
                            λ lanes. given-NeverShort {A = Lanes × ℤ} (lanes, act.balance)

    check_voucher_valid-IsShort :
        (s : ℤ)
        → IsShort s (check_voucher_valid env w addr sv)
        → (r : Lanes × ℤ) × (read_lanes env w addr sv ≡ given r)
          × IsShort s (check_against r.0 r.1 sv)
    unfolding check_voucher_valid
    check_voucher_valid-IsShort s h = elim (Bool-cases (sv.channel_addr == addr)) [
      | inr other ↦ not_text (rw other at h)
      | inl same ↦
          bind-IsShort (read_lanes env w addr sv) (λ r. check_against r.0 r.1 sv) s
            read_lanes-NeverShort (rw same at h)
    ]
      where
        not_text : {t : String} {B : Type 0} → IsShort {A = Lanes × ℤ} s (failed (text t)) → B
        not_text h = cc

    add_to_channel-IsShort :
        (ci : ChannelInfo) (s : ℤ)
        → by_address env w addr ≡ given ci
        → IsShort s (add_to_channel env addr sv (pos 0) w ci).1
        → (lanes : Lanes) × (balance : ℤ) × Read env w addr sv ci lanes balance
          × (s +ℤ balance ≡ redeemed_sum (set_lane sv.lane (lane_of sv) lanes))
          × (pos 0 <ℤ s)
          × ((add_to_channel env addr sv (pos 0) w ci).0 ≡ w)
    unfolding add_to_channel
    add_to_channel-IsShort ci s found h = elim (Bool-cases (contains_voucher sv ci.vouchers)) [
      | inl there ↦ not_given (rw there at h)
      | inr fresh ↦ elim (Answer-cases (check_voucher_valid env w addr sv)) [
        | inl (r, valid) ↦
            absurd (append_voucher-NeverShort w ci sv (pos 0) r s (rw (fresh, valid) at h))
        | inr (inl (e, invalid)) ↦
            let (r, read, short) =
              check_voucher_valid-IsShort s (ap failure invalid ∙ rw (fresh, invalid) at h) in
            let (filled, positive) = check_against-IsShort r.0 r.1 s sv short in
            (
              r.0,
              r.1,
              read_lanes-Read env w addr sv ci r found read,
              filled,
              positive,
              rw (fresh, invalid) refl,
            )
        | inr (inr crash) ↦ not_crashed (rw (fresh, crash) at h)
      ]
    ]
      where
        not_given : {B : Type 0} → IsShort {A = ℤ} s (given (pos 0)) → B
        not_given h = cc

        not_crashed : {B : Type 0} → IsShort {A = ℤ} s crashed → B
        not_crashed h = cc

  -- Where `createVoucher` gives no voucher but a shortfall, the voucher that it signed would, in the
  -- place of its lane, let the lanes redeem more than the channel's actor holds, and the shortfall is
  -- what is missing, which is more than 0; the store is as it was. The lanes are those of the chain
  -- under the stored vouchers.
  pub create_voucher-shortfall :
      (w : W) (addr : ℕ) (voucher : Voucher) (r : VoucherCreateResult)
      → (create_voucher env w addr voucher).1 ≡ given r
      → r.voucher ≡ none
      → (ci : ChannelInfo) × (sv : Voucher) × (lanes : Lanes) × (balance : ℤ) × (by_address env w
            addr
          ≡ given ci)
        × (signed_voucher env w addr ci voucher ≡ given sv)
        × Read env w addr sv ci lanes balance
        × (r.shortfall +ℤ balance ≡ redeemed_sum (set_lane sv.lane (lane_of sv) lanes))
        × (pos 0 <ℤ r.shortfall)
        × ((create_voucher env w addr voucher).0 ≡ w)
  unfolding create_voucher add_voucher
  create_voucher-shortfall w addr voucher r h empty =
      let (sv, chosen, made, kept) =
        after-given
          (
            w,
            (wrap "failed to get channel info by address" (by_address env w addr) >>= λ ci.
                signed_voucher env w addr ci voucher),
          )
          (λ w sv. (
            (add_voucher env w addr sv (pos 0)).0,
            created sv (add_voucher env w addr sv (pos 0)).1,
          ))
          h in
      let (ci, found, signed) =
        bind-given (wrap "failed to get channel info by address" (by_address env w addr))
          (λ ci. signed_voucher env w addr ci voucher) chosen in
      let here = wrap-given _ (by_address env w addr) found in
      let (ci', found', short, stay) =
        after-IsShort (w, wrap "looking for channel" (by_address env w addr))
          (add_to_channel env addr sv (pos 0)) r.shortfall (wrap-NeverShort _ _)
          (created-none sv (add_voucher env w addr sv (pos 0)).1 r made empty) in
      let here' = wrap-given _ (by_address env w addr) found' in
      let (lanes, balance, read, filled, positive, world) =
        add_to_channel-IsShort w addr sv ci' r.shortfall here' short in
      (
        ci',
        sv,
        lanes,
        balance,
        here',
        ap (λ c. signed_voucher env w addr c voucher) (given_inj (sym here' ∙ here)) ∙ signed,
        read,
        filled,
        positive,
        kept ∙ stay ∙ world,
      )
