-- ===== src/Payments/Inbound.antt =====
-- payments/manager.go: channels that another node opened to this one, which are read from the chain
-- when their first voucher comes in.
use go_hop_exchange.Prelude.{
  ℕ, ◌+◌, false, none, some, [], ◌∷◌, ltb, ◌==◌, if◌then◌else◌, ℤ, pos, u64,
}
use go_hop_exchange.Payments.Types.{
  Voucher, ChannelInfo, Direction, inbound, outbound, not_tracked, text, Answer, given, failed,
  crashed, ◌>>=◌, wrap,
}
use go_hop_exchange.Payments.Env.{Env, of_result, after}
use go_hop_exchange.Payments.Lanes.{Lanes}
use go_hop_exchange.Payments.Store.{by_address, track_channel}
use go_hop_exchange.Payments.Messages.{load_actor_state}
use go_hop_exchange.Payments.Vouchers.{add_voucher}

unfoldable pub max_lane : ℕ → Lanes → ℕ
max_lane m [] = m
max_lane m ((l, _) ∷ lanes) = max_lane (if ltb m l then l else m) lanes

-- `nextLaneFromState`
unfoldable pub next_lane_from_state : Lanes → ℕ
unfolding max_lane
next_lane_from_state [] = 0
next_lane_from_state (x ∷ lanes) = u64 (max_lane 0 (x ∷ lanes) + 1)

-- The channel that `loadStateChannelInfo` makes of the actor's state.
unfoldable pub state_channel_info : ℕ → Direction → ℕ → ℕ → ℕ → ChannelInfo
state_channel_info addr dir from to next_lane = record {
  channel_id = 0;
  channel = some addr;
  control = elim dir [ outbound ↦ from | inbound ↦ to ];
  target = elim dir [ outbound ↦ to | inbound ↦ from ];
  direction = dir;
  vouchers = [];
  next_lane = next_lane;
  amount = pos 0;
  pending_amount = pos 0;
  create_msg = none;
  add_funds_msg = none;
  settling = false;
  settling_at = pos 0;
}

module _ {W : Type 0} (env : Env W) where
  -- `loadStateChannelInfo`
  unfoldable pub load_state_channel_info : W → ℕ → Direction → Answer ChannelInfo
  unfolding load_actor_state next_lane_from_state state_channel_info
  load_state_channel_info w addr dir = load_actor_state env w addr >>= λ st.
      wrap "Unable to get account key for From actor state" (of_result (env.account_key w st.from))
      >>= λ from.
          wrap "Unable to get account key for To actor state" (of_result (env.account_key w st.to))
          >>= λ to.
              wrap "Unable to get next lane from state" (of_result (env.lanes w st)) >>= λ lanes.
              given (state_channel_info addr dir from to (next_lane_from_state lanes))

  -- `trackInboundChannel`, by what `ByAddress` says.
  unfoldable pub track_or_load : W → ℕ → Answer ChannelInfo → W × Answer ChannelInfo
  unfolding load_state_channel_info track_channel
  track_or_load w addr (given ci) = (w, given ci)
  track_or_load w addr (failed not_tracked) =
      after (w, load_state_channel_info w addr inbound) (track_channel env)
  track_or_load w addr (failed e) = (w, failed e)
  track_or_load w addr crashed = (w, crashed)

  -- `trackInboundChannel`
  unfoldable pub track_inbound_channel : W → ℕ → W × Answer ChannelInfo
  unfolding track_or_load by_address
  track_inbound_channel w addr = track_or_load w addr (by_address env w addr)

  -- `AddVoucherInbound`; a proof is a number, 0 if there is none.
  unfoldable pub add_voucher_inbound : W → ℕ → Voucher → ℕ → ℤ → W × Answer ℤ
  unfolding track_inbound_channel add_voucher
  add_voucher_inbound w addr sv proof min_delta =
      if proof == 0
      then after (track_inbound_channel w addr) (λ w _. add_voucher env w addr sv min_delta)
      else (w, failed (text "err proof not supported"))
