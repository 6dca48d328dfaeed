-- ===== src/Client/Actions.antt =====
-- retrieval/client/fsm.go: the actions of the client's events. `none` is an action that panics, by a
-- nil pointer, or whose interval loop has not ended on its fuel. `show` is how `big.Int` prints a
-- number.
use Prim.Native.String.{String, ◌++◌ as ◌<>◌}
use mathlib.Core.Option
use go_hop_exchange.Prelude.{
  ℕ, true, ◌&&◌, not, Option, none, some, ℤ, ◌+ℤ◌, ◌-ℤ◌, leb_ℤ, is_zero, div_ℤ, to_uint64, leb,
  if◌then◌else◌,
}
use go_hop_exchange.Deal.Status.{Status, failing, cancelling, same_status, status_name}
use go_hop_exchange.Deal.Params.{next_interval}
use go_hop_exchange.Fsm.{Outcome, Engine}
use go_hop_exchange.Client.Chart.{
  PaymentInfo, ClientState, Event, write_deal_proposal_errored, deal_proposed, deal_rejected,
  deal_not_found_event, provider_cancelled, unknown_response_received, payment_channel_errored,
  allocate_lane_errored, payment_channel_create_initiated, payment_channel_ready,
  payment_channel_adding, last_payment_requested, all_blocks_received, payment_requested,
  unseal_payment_requested, blocks_received, funds_expended, bad_payment_requested,
  create_voucher_failed, write_deal_payment_errored, payment_sent, data_transfer_error,
  early_termination, lane_allocated, cancel, provider_errored, rules,
}

-- `if ds.PaymentInfo == nil { ds.PaymentInfo = &PaymentInfo{PayCh: payCh} }`
abbrev pub with_pay_ch : Option PaymentInfo → ℕ → Option PaymentInfo
with_pay_ch none pay_ch = some (record { pay_ch = pay_ch; lane = 0 })
with_pay_ch (some info) pay_ch = some info

-- The end of the action of `EventPaymentSent`, where bytes are paid for: a new interval is opened
-- if they reach the current one.
unfoldable pub open_interval : ClientState → Option ClientState
open_interval s =
    if leb s.current_interval s.bytes_paid_for
    then Option.map (λ next. record s { current_interval = next })
        (next_interval s.params s.current_interval)
    else some s

-- The action of `EventPaymentSent` behind the update of the funds.
unfoldable pub account_bytes : ClientState → Option ClientState
unfolding open_interval
account_bytes s =
    if leb_ℤ s.funds_spent s.unseal_price
    then some (record s { unseal_funds_paid = s.funds_spent })
    else if is_zero s.price_per_byte
    then some (record s { unseal_funds_paid = s.unseal_price })
    else open_interval (record s {
      unseal_funds_paid = s.unseal_price;
      bytes_paid_for = to_uint64 (div_ℤ (s.funds_spent -ℤ s.unseal_price) s.price_per_byte);
    })

-- The action of `EventPaymentSent`.
unfoldable pub account_payment : ℤ → ClientState → Option ClientState
unfolding account_bytes
account_payment voucher_amt s = account_bytes (record s {
  payment_requested = s.payment_requested -ℤ (voucher_amt -ℤ s.funds_spent);
  funds_spent = voucher_amt;
})

abbrev says : ClientState → String → Option ClientState
says ds text = some (record ds { message = text })

module _ (show : ℤ → String) where
  unfoldable pub action : Event → ClientState → Option ClientState
  unfolding account_payment
  action (write_deal_proposal_errored err) ds = says ds ("proposing deal: " <> err)
  action (deal_proposed channel_id) ds = some (record ds { channel_id = channel_id; message = "" })
  action (deal_rejected text) ds = says ds ("deal rejected: " <> text)
  action (deal_not_found_event text) ds = says ds ("deal not found: " <> text)
  action (unknown_response_received status) ds =
      says ds ("Unexpected deal response status: " <> status_name status)
  action (payment_channel_errored err) ds = says ds ("error from payment channel: " <> err)
  action (payment_channel_create_initiated msg_cid) ds =
      some (record ds { wait_msg_cid = some msg_cid })
  action (payment_channel_adding msg_cid pay_ch) ds =
      some (record ds {
        wait_msg_cid = some msg_cid;
        payment_info = with_pay_ch ds.payment_info pay_ch;
      })
  action (payment_channel_ready pay_ch) ds = some (record ds {
    payment_info = with_pay_ch ds.payment_info pay_ch;
    wait_msg_cid = none;
    message = "";
  })
  action (allocate_lane_errored err) ds = says ds ("allocating payment lane: " <> err)
  action (lane_allocated lane) ds =
      Option.map (λ info. record ds { payment_info = some (record info { lane = lane }) })
        ds.payment_info
  action (provider_errored text) ds = says ds text
  action (data_transfer_error err) ds = says ds ("error generated by data transfer: " <> err)
  action (last_payment_requested owed) ds = some (record ds {
    payment_requested = ds.payment_requested +ℤ owed;
    last_payment_requested = true;
  })
  action (payment_requested owed) ds =
      some (record ds { payment_requested = ds.payment_requested +ℤ owed })
  action (unseal_payment_requested owed) ds =
      some (record ds { payment_requested = ds.payment_requested +ℤ owed })
  action all_blocks_received ds = some (record ds { all_blocks_received = true })
  action (blocks_received total_received) ds = some (record ds { total_received = total_received })
  action (funds_expended shortfall) ds = some (record ds {
    message =
        "not enough current or pending funds in payment channel, shortfall of " <> show shortfall;
    voucher_shortfall = shortfall;
  })
  action (bad_payment_requested text) ds = says ds text
  action (create_voucher_failed err) ds = says ds ("creating payment voucher: " <> err)
  action (write_deal_payment_errored err) ds = says ds ("writing deal payment: " <> err)
  action (payment_sent voucher_amt) ds = account_payment voucher_amt ds
  action early_termination ds = says ds "Provider sent complete status without sending all data"
  action provider_cancelled ds =
      if not (same_status ds.status failing) && not (same_status ds.status cancelling)
      then says ds "Provider cancelled retrieval"
      else some ds
  action cancel ds = says ds "Client cancelled retrieval"
  action _ ds = some ds

  abbrev pub set_status : Status → ClientState → ClientState
  set_status x ds = record ds { status = x }

  -- What the state-machine group does with an event sent to a deal.
  unfoldable pub trigger : Engine → Event → ClientState → Outcome ClientState
  trigger engine e ds = engine.fire ClientState (rules e) (λ s. s.status) set_status (action e) ds
