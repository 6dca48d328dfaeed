-- ===== src/Payments/Vouchers.antt =====
-- payments/channel.go: the vouchers of a channel, made, checked, added and submitted.
use go_hop_exchange.Prelude.{
  ℕ, ◌+◌, Bool, true, false, Option, none, some, List, [], ◌∷◌, ◌++◌, leb, ◌==◌, if◌then◌else◌, ℤ,
  pos, ◌-ℤ◌, ltb_ℤ, leb_ℤ, u64,
}
use go_hop_exchange.Payments.Types.{
  Voucher, VoucherInfo, ChannelInfo, same_voucher, not_tracked, insufficient_funds, text, wrapped,
  Answer, given, failed, crashed, ◌>>=◌, wrap,
}
use go_hop_exchange.Payments.Env.{Env, ActorState, of_result, of_error, after}
use go_hop_exchange.Payments.Lanes.{
  Lane, Lanes, lane_at, lane_state, total_redeemed_with_voucher, next_nonce_for_lane,
}
use go_hop_exchange.Payments.Store.{by_address, vouchers_for_paych, put_channel_info}
use go_hop_exchange.Payments.Submitted.{has_voucher, was_voucher_submitted, mark_voucher_submitted}
use go_hop_exchange.Payments.Messages.{load_actor_state, mpool_push, update_message}

-- The checks of `checkVoucherValidUnlocked` against the voucher's lane.
unfoldable pub check_lane : Voucher → Option Lane → Answer (Unit {0})
check_lane sv none = given tt
check_lane sv (some x) =
    if leb sv.nonce x.nonce
    then failed (text "nonce too low")
    else if leb_ℤ sv.amount x.redeemed
    then failed (text "voucher amount is lower than amount for voucher with lower nonce")
    else given tt

-- The checks against the actor's balance.
unfoldable pub check_balance : ℤ → Voucher → ℤ → Answer (Unit {0})
check_balance balance sv total =
    if ltb_ℤ balance total
    then failed (insufficient_funds (total -ℤ balance))
    else if sv.merges == 0
    then given tt
    else failed (text "dont currently support paych lane merges")

-- The checks that come once the lanes are known.
unfoldable pub check_against : Lanes → ℤ → Voucher → Answer (Lanes × ℤ)
unfolding check_lane check_balance total_redeemed_with_voucher lane_at
check_against lanes balance sv = check_lane sv (lane_at sv.lane lanes) >>= λ _.
    wrap "totalRedeemedWithVoucher" (total_redeemed_with_voucher lanes sv) >>= λ total.
    check_balance balance sv total >>= λ _. given (lanes, balance)

-- The vouchers that `laneState` applies; a channel that is not tracked has none.
abbrev pub or_none : Answer (List VoucherInfo) → Answer (List VoucherInfo)
or_none (failed not_tracked) = given []
or_none a = a

-- The change in value that a voucher makes to its lane.
abbrev pub delta_to : Voucher → Option Lane → ℤ
delta_to sv none = sv.amount -ℤ pos 0
delta_to sv (some x) = sv.amount -ℤ x.redeemed

unfoldable pub contains_voucher : Voucher → List VoucherInfo → Bool
contains_voucher sv [] = false
contains_voucher sv (v ∷ vs) = if same_voucher sv v.voucher then true else contains_voucher sv vs

-- The channel with a new voucher, where the actor has this balance.
unfoldable pub with_new_voucher : Voucher → ℤ → ChannelInfo → ChannelInfo
with_new_voucher sv balance ci = record ci {
  vouchers = ci.vouchers ++ (record { voucher = sv; submitted = false } ∷ []);
  next_lane = if leb ci.next_lane sv.lane then u64 (sv.lane + 1) else ci.next_lane;
  amount = if ltb_ℤ ci.amount balance then balance else ci.amount;
}

-- `VoucherCreateResult`
pub record VoucherCreateResult : Type 0 where
  pub voucher : Option Voucher
  pub shortfall : ℤ

-- What `createVoucher` makes of the result of adding the voucher.
unfoldable pub created : Voucher → Answer ℤ → Answer VoucherCreateResult
created sv (given _) = given (record { voucher = some sv; shortfall = pos 0 })
created sv (failed (insufficient_funds short)) =
    given (record { voucher = none; shortfall = short })
created sv (failed e) = failed (wrapped "failed to persist voucher" e)
created sv crashed = crashed

-- Whether a voucher may be sent to the chain: one that the channel has, only once.
unfoldable pub may_submit : ChannelInfo → Voucher → Answer (Unit {0})
unfolding was_voucher_submitted
may_submit ci sv =
    if has_voucher sv ci.vouchers
    then (was_voucher_submitted ci sv >>= λ done.
        if done
        then failed (text "cannot submit voucher that has already been submitted")
        else given tt)
    else given tt

abbrev pub with_voucher_info : Voucher → ChannelInfo → ChannelInfo
with_voucher_info sv ci =
    if has_voucher sv ci.vouchers
    then ci
    else record ci { vouchers = ci.vouchers ++ (record { voucher = sv; submitted = false } ∷ []) }

module _ {W : Type 0} (env : Env W) where
  -- `laneState`
  unfoldable pub paych_lanes : W → ActorState → ℕ → Answer Lanes
  unfolding lane_state vouchers_for_paych
  paych_lanes w st addr = of_result (env.lanes w st) >>= λ lanes.
      or_none (vouchers_for_paych env w addr) >>= lane_state lanes

  -- What `checkVoucherValidUnlocked` reads before its checks: the lanes and the balance.
  unfoldable pub read_lanes : W → ℕ → Voucher → Answer (Lanes × ℤ)
  unfolding load_actor_state paych_lanes
  read_lanes w addr sv = of_result (env.get_actor w addr) >>= λ act.
      wrap "loadActorState" (load_actor_state env w addr) >>= λ st.
      of_result (env.account_key w st.from) >>= λ from.
      of_result (env.signing_bytes sv) >>= λ bytes. of_error (env.verify sv from bytes) >>= λ _.
      wrap "laneState" (paych_lanes w st addr) >>= λ lanes. given (lanes, act.balance)

  -- `checkVoucherValidUnlocked`
  unfoldable pub check_voucher_valid : W → ℕ → Voucher → Answer (Lanes × ℤ)
  unfolding read_lanes check_against
  check_voucher_valid w addr sv =
      if sv.channel_addr == addr
      then (read_lanes w addr sv >>= λ r. check_against r.0 r.1 sv)
      else failed (text "voucher ChannelAddr doesn't match channel address")

  -- The end of `addVoucherUnlocked`, where the voucher is valid.
  unfoldable pub append_voucher : W → ChannelInfo → Voucher → ℤ → Lanes × ℤ → W × Answer ℤ
  unfolding lane_at with_new_voucher put_channel_info
  append_voucher w ci sv min_delta (lanes, balance) =
      let delta = delta_to sv (lane_at sv.lane lanes) in
      if ltb_ℤ delta min_delta
      then (w, failed (text "addVoucher: supplied token amount too low"))
      else after (put_channel_info env w (with_new_voucher sv balance ci))
          (λ w' _. (w', given delta))

  -- `addVoucherUnlocked` from where the channel is known; a voucher that it has is ignored.
  unfoldable pub add_to_channel : ℕ → Voucher → ℤ → W → ChannelInfo → W × Answer ℤ
  unfolding contains_voucher check_voucher_valid append_voucher
  add_to_channel addr sv min_delta w ci =
      if contains_voucher sv ci.vouchers
      then (w, given (pos 0))
      else after (w, check_voucher_valid w addr sv) (λ w r. append_voucher w ci sv min_delta r)

  -- `addVoucherUnlocked`
  unfoldable pub add_voucher : W → ℕ → Voucher → ℤ → W × Answer ℤ
  unfolding by_address add_to_channel
  add_voucher w addr sv min_delta =
      after (w, wrap "looking for channel" (by_address env w addr))
        (add_to_channel addr sv min_delta)

  -- The voucher that `createVoucher` signs, with its nonce and its signature.
  unfoldable pub signed_voucher : W → ℕ → ChannelInfo → Voucher → Answer Voucher
  unfolding next_nonce_for_lane
  signed_voucher w addr ci voucher =
      let sv = record voucher {
        channel_addr = addr;
        nonce = next_nonce_for_lane ci.vouchers voucher.lane;
      } in
      wrap "failed to get voucher signing bytes" (of_result (env.signing_bytes sv)) >>= λ bytes.
      wrap "failed to sign voucher" (of_result (env.sign w ci.control bytes)) >>= λ sig.
      given (record sv { signature = sig })

  -- `createVoucher`
  unfoldable pub create_voucher : W → ℕ → Voucher → W × Answer VoucherCreateResult
  unfolding by_address signed_voucher add_voucher created
  create_voucher w addr voucher =
      after
        (
          w,
          (wrap "failed to get channel info by address" (by_address env w addr) >>= λ ci.
              signed_voucher w addr ci voucher),
        )
        (λ w sv. let (w', r) = add_voucher w addr sv (pos 0) in (w', created sv r))

  -- `MarkVoucherSubmitted` of the store.
  unfoldable pub store_submitted : W → ChannelInfo → Voucher → W × Answer ChannelInfo
  unfolding mark_voucher_submitted put_channel_info
  store_submitted w ci sv = after (w, mark_voucher_submitted ci sv) (put_channel_info env)

  -- `submitVoucher`
  unfoldable pub submit_voucher : W → ℕ → Voucher → ℕ → W × Answer ℕ
  unfolding by_address may_submit mpool_push store_submitted
  submit_voucher w addr sv secret =
      after (w, (by_address env w addr >>= λ ci. may_submit ci sv >>= λ _. given ci))
        (λ w ci. after (mpool_push env w (update_message ci.control addr sv secret)) (λ w' smsg.
          after (store_submitted w' (with_voucher_info sv ci) sv)
            (λ w'' _. (w'', given (env.message_cid smsg)))))

  -- `checkVoucherSpendable`, by the node that receives on the channel.
  unfoldable pub check_voucher_spendable : W → ℕ → ℕ → Voucher → ℕ → Answer Bool
  unfolding by_address was_voucher_submitted
  check_voucher_spendable w to addr sv secret = by_address env w addr >>= λ ci.
      was_voucher_submitted ci sv >>= λ done.
      if done
      then given false
      else (of_result (env.state_call w (update_message to addr sv secret)) >>= λ code.
          given (code == 0))
