-- ===== src/Tests/Vouchers.antt =====
-- payments/channel.go and store.go on the vouchers of one channel.
use go_hop_exchange.Prelude.{
  ◌+◌, ◌<◌, ◌≡◌, refl, Bool, true, false, ◌||◌, none, [], ◌∷◌, arith, ℤ, pos, ◌+ℤ◌, ◌-ℤ◌, ◌<ℤ◌,
  u64_mod, All,
}
use go_hop_exchange.Payments.Types.{Voucher, VoucherInfo, ChannelInfo, same_voucher, given, ◌>>=◌}
use go_hop_exchange.Payments.Lanes.{
  Lanes, lane_at, set_lane, lane_of, apply_voucher, lane_state, redeemed_sum, with_voucher,
  total_redeemed_with_voucher, max_nonce, next_nonce_for_lane,
}
use go_hop_exchange.Payments.Store.{
  by_address, find_chan, find_chans, find_rows, unmarshall_channel_info, marshall_channel_info,
  put_channel_info, put_with_id, allocate_lane, vouchers_for_paych,
}
use go_hop_exchange.Payments.Submitted.{
  info_for_voucher, was_voucher_submitted, mark_first, mark_if_lower, mark_voucher_submitted,
}
use go_hop_exchange.Payments.Messages.{load_actor_state}
use go_hop_exchange.Payments.Vouchers.{
  check_lane, check_balance, check_against, contains_voucher, with_new_voucher, created,
  paych_lanes, read_lanes, check_voucher_valid, append_voucher, add_to_channel, add_voucher,
  signed_voucher, create_voucher,
}
use go_hop_exchange.Payments.Admission.{Admitted, Read, add_voucher-Admitted}
use go_hop_exchange.Payments.Creation.{create_voucher-shortfall}
use go_hop_exchange.Payments.Nonces.{IsBelow, Lower, next_nonce-IsAhead}
use go_hop_exchange.Payments.Redeemed.{IsAhead}
use go_hop_exchange.Payments.Marking.{superseded_by, mark_voucher_submitted-was}
use go_hop_exchange.Payments.Allocation.{LanesBelow}
use go_hop_exchange.Tests.Channels.{voucher, channel, chain, quiet}

found : by_address quiet tt 7 ≡ given channel
unfolding by_address find_chan find_chans find_rows unmarshall_channel_info
found = refl

fresh : contains_voucher (voucher 1 2 30) channel.vouchers ≡ false
unfolding contains_voucher same_voucher
fresh = refl

added : (add_voucher quiet tt 7 (voucher 1 2 30) (pos 0)).1 ≡ given (pos 10)
unfolding add_voucher add_to_channel contains_voucher same_voucher by_address find_chan find_chans
    find_rows unmarshall_channel_info check_voucher_valid read_lanes load_actor_state paych_lanes
    vouchers_for_paych lane_state apply_voucher lane_at set_lane check_against check_lane
    check_balance total_redeemed_with_voucher with_voucher redeemed_sum append_voucher
    put_channel_info put_with_id marshall_channel_info with_new_voucher ◌+ℤ◌ ◌-ℤ◌
added = refl

add_voucher-Admitted_example :
    Admitted quiet tt 7
      (voucher 1 2 30)
      channel
      (pos 10)
      (add_voucher quiet tt 7 (voucher 1 2 30) (pos 0)).0
add_voucher-Admitted_example =
    add_voucher-Admitted quiet tt 7 (voucher 1 2 30) channel (pos 0) (pos 10) found fresh added

-- A voucher of 200, where the actor holds 100.
create_voucher-shortfall_example :
    (ci : ChannelInfo) × (sv : Voucher) × (lanes : Lanes) × (balance : ℤ) × (by_address quiet tt 7
      ≡ given ci)
    × (signed_voucher quiet tt 7 ci (voucher 1 0 200) ≡ given sv)
    × Read quiet tt 7 sv ci lanes balance
    × (pos 110 +ℤ balance ≡ redeemed_sum (set_lane sv.lane (lane_of sv) lanes))
    × (pos 0 <ℤ pos 110)
    × ((create_voucher quiet tt 7 (voucher 1 0 200)).0 ≡ tt)
unfolding create_voucher created signed_voucher next_nonce_for_lane max_nonce add_voucher
    add_to_channel contains_voucher same_voucher by_address find_chan find_chans find_rows
    unmarshall_channel_info check_voucher_valid read_lanes load_actor_state paych_lanes
    vouchers_for_paych lane_state apply_voucher lane_at set_lane check_against check_lane
    check_balance total_redeemed_with_voucher with_voucher redeemed_sum append_voucher
    put_channel_info put_with_id marshall_channel_info with_new_voucher ◌+ℤ◌ ◌-ℤ◌
create_voucher-shortfall_example =
    create_voucher-shortfall quiet tt 7 (voucher 1 0 200)
      (record { voucher = none; shortfall = pos 110 }) refl refl

ahead : IsAhead (voucher 0 2 30) (lane_at 0 chain)
unfolding lane_at
ahead = omega arith

stored_lanes :
    lane_state chain channel.vouchers ≡ given (set_lane 1 (lane_of (voucher 1 1 20)) chain)
unfolding lane_state apply_voucher lane_at
stored_lanes = refl

next_two : 2 ≡ next_nonce_for_lane channel.vouchers 1
unfolding next_nonce_for_lane max_nonce
next_two = refl

small : max_nonce 1 channel.vouchers 0 + 1 < u64_mod
unfolding max_nonce
small = omega arith

not_behind : Lower 2 (lane_at 1 chain)
unfolding lane_at
not_behind = tt

next_nonce-IsAhead_example :
    All (IsBelow 1 2) channel.vouchers
    × IsAhead (voucher 1 2 30) (lane_at 1 (set_lane 1 (lane_of (voucher 1 1 20)) chain))
next_nonce-IsAhead_example =
    next_nonce-IsAhead channel.vouchers chain (set_lane 1 (lane_of (voucher 1 1 20)) chain)
      (voucher 1 2 30) next_two small not_behind stored_lanes

abbrev entry : Bool → Voucher → VoucherInfo
entry b v = record { voucher = v; submitted = b }

-- Two vouchers of a lane, of which the later one is marked.
abbrev two_vouchers : Bool → Bool → ChannelInfo
two_vouchers b c = record channel {
  vouchers = entry b (voucher 1 1 20) ∷ entry c (voucher 1 2 30) ∷ [];
}

marked :
    mark_voucher_submitted (two_vouchers false false) (voucher 1 2 30)
    ≡ given (two_vouchers true true)
unfolding mark_voucher_submitted info_for_voucher mark_first mark_if_lower same_voucher
marked = refl

mark_voucher_submitted-was_example :
    was_voucher_submitted (two_vouchers true true) (voucher 1 1 20) ≡ (
      was_voucher_submitted (two_vouchers false false) (voucher 1 1 20) >>= λ b.
      given (b || superseded_by (voucher 1 2 30) (voucher 1 1 20)))
mark_voucher_submitted-was_example =
    mark_voucher_submitted-was (two_vouchers false false) (two_vouchers true true) (voucher 1 2 30)
      (voucher 1 1 20) marked

below : LanesBelow 2 channel.vouchers
below = (omega arith, tt)

allocated : (allocate_lane quiet tt 7).1 ≡ given 2
unfolding allocate_lane by_address find_chan find_chans find_rows unmarshall_channel_info
    put_channel_info put_with_id marshall_channel_info
allocated = refl
