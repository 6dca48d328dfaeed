-- ===== src/Payments/Pending.antt =====
-- payments/channel.go: what the messages that create a channel and add funds to it do to the stored
-- channel, when they are sent and when they are confirmed.
use go_hop_exchange.Prelude.{ℕ, none, some, ℤ, pos, ◌+ℤ◌}
use go_hop_exchange.Payments.Types.{ChannelInfo}

-- `addFunds`, when the message is sent.
unfoldable pub adding : ℤ → ℕ → ChannelInfo → ChannelInfo
adding amt mcid ci = record ci { pending_amount = amt; add_funds_msg = some mcid }

-- `waitPaychCreateMsg`, when the channel is there.
unfoldable pub on_created : ℕ → ChannelInfo → ChannelInfo
on_created addr ci = record ci {
  channel = some addr;
  amount = ci.pending_amount;
  pending_amount = pos 0;
  create_msg = none;
}

-- `waitAddFundsMsg`, when the message failed, and when it is confirmed.
unfoldable pub on_add_failed : ChannelInfo → ChannelInfo
on_add_failed ci = record ci { pending_amount = pos 0; add_funds_msg = none }

unfoldable pub on_added : ChannelInfo → ChannelInfo
on_added ci = record ci {
  amount = ci.amount +ℤ ci.pending_amount;
  pending_amount = pos 0;
  add_funds_msg = none;
}
