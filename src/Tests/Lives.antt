-- ===== src/Tests/Lives.antt =====
-- payments/channel.go: a channel over the messages of its creation and of funds that are added.
use go_hop_exchange.Prelude.{◌≡◌, refl, some, [], ◌∷◌, ok, ℤ, pos, ◌+ℤ◌, ◌-ℤ◌, ltb_ℤ, if◌then◌else◌}
use go_hop_exchange.Payments.Types.{ChannelInfo, given}
use go_hop_exchange.Payments.Env.{Env, row}
use go_hop_exchange.Payments.Store.{
  find_chan, find_chans, find_rows, unmarshall_channel_info, outbound_active_by_from_to,
  new_channel, is_active_between,
}
use go_hop_exchange.Payments.Pending.{adding, on_created}
use go_hop_exchange.Payments.Requests.{sent}
use go_hop_exchange.Payments.Messages.{mpool_push}
use go_hop_exchange.Payments.Funds.{process_task, task_for, add_funds, started, for_funds}
use go_hop_exchange.Payments.Vouchers.{with_new_voucher}
use go_hop_exchange.Payments.Ledger.{Life, opened, later, confirm_create, add, add_voucher}
use go_hop_exchange.Tests.Channels.{voucher, quiet}

-- A channel that is created with 50, which is confirmed, gets 30 more, and a voucher when these are on
-- its actor but not confirmed.
abbrev confirmed : ChannelInfo
confirmed = on_created 7 (new_channel 1 2 8 (pos 50))

abbrev idle : Env (Unit {0})
idle = record quiet {
  query_channels = λ w. ok (row confirmed ∷ []);
  get_channel = λ w id. some (ok confirmed);
}

abbrev sent_more : ChannelInfo
sent_more = adding (pos 30) 55 confirmed

-- What the actor holds beyond the confirmed amount.
abbrev surplus : ℤ
surplus = if ltb_ℤ sent_more.amount (pos 80) then pos 80 -ℤ sent_more.amount else pos 0

abbrev promised : ChannelInfo
promised = with_new_voucher (voucher 0 1 20) (pos 80) sent_more

-- The message of the creation, and none once it is confirmed.
creation : (new_channel 1 2 8 (pos 50)).create_msg ≡ some 8
unfolding new_channel
creation = refl

idle_found : outbound_active_by_from_to idle tt 1 2 ≡ given confirmed
unfolding outbound_active_by_from_to find_chan find_chans find_rows unmarshall_channel_info
    is_active_between new_channel on_created
idle_found = refl

sends_more :
    process_task idle tt 1 2 (pos 30) ≡ (tt, given (started (sent (some 7) 55) (for_funds 0 55)))
unfolding process_task task_for outbound_active_by_from_to find_chan find_chans find_rows
    unmarshall_channel_info is_active_between new_channel on_created add_funds mpool_push
sends_more = refl

here : sent_more.channel ≡ some 7
unfolding adding on_created
here = refl

abbrev life :
    Life idle 1 2 8
      (pos 50)
      promised
      (pos 50 +ℤ pos 0 +ℤ pos 30 +ℤ pos 0)
      (pos 0 +ℤ pos 0 +ℤ pos 0 +ℤ pos 0)
      (pos 0 +ℤ pos 0 +ℤ pos 0 +ℤ surplus)
life =
    later
      (later (later opened (confirm_create 7 8 creation refl))
        (add tt tt 1 2 0 55 (pos 30) (sent (some 7) 55) idle_found sends_more refl))
      (add_voucher (voucher 0 1 20) (pos 80) 7 here refl)
