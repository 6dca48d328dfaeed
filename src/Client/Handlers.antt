-- ===== src/Client/Handlers.antt =====
-- retrieval/client/fsm.go: the handlers that run when a deal enters a status. A handler uses the
-- interface `DealEnvironment` over a state of its own and triggers at most one event; an outer
-- `none` is a nil pointer.
use mathlib.Core.Option
use go_hop_exchange.Prelude.{
  ℕ, not, ◌&&◌, Option, none, some, ℤ, pos, ◌+ℤ◌, ◌-ℤ◌, ◌*ℤ◌, ltb_ℤ, leb_ℤ, is_zero, ltb, leb, ◌==◌,
  if◌then◌else◌, from_int64, Result, ok, err,
}
use go_hop_exchange.Deal.Status.{
  Status, new, accepted, payment_channel_creating, payment_channel_adding_initial_funds,
  payment_channel_allocating_lane, ongoing, funds_needed, funds_needed_last_payment, send_funds,
  send_funds_last_payment, check_funds, payment_channel_adding_funds, failing, cancelling,
  check_complete,
}
use go_hop_exchange.Deal.Params.{Proposal}
use go_hop_exchange.Client.Chart.{
  PaymentInfo, ClientState, Event, write_deal_proposal_errored, deal_proposed, payment_channel_skip,
  payment_channel_errored, payment_channel_create_initiated, payment_channel_ready,
  payment_channel_adding, allocate_lane_errored, lane_allocated, last_payment_requested,
  payment_requested, sends_funds, payment_not_sent, create_voucher_failed, voucher_shortfall,
  write_deal_payment_errored, payment_sent, funds_expended, data_transfer_error, cancel_complete,
  complete_verified, wait_for_last_blocks, early_termination,
}

-- `ChannelResponse` of the payment manager; 0 is `address.Undef` and `cid.Undef`.
pub record ChannelResponse : Type 0 where
  pub channel : ℕ
  pub wait_sentinel : ℕ

-- What `CreateVoucher` gives.
pub record VoucherCreateResult : Type 0 where
  pub voucher : ℕ
  pub shortfall : ℤ

pub record AvailableFunds : Type 0 where
  pub confirmed_amt : ℤ
  pub pending_amt : ℤ
  pub pending_wait_sentinel : Option ℕ
  pub queued_amt : ℤ
  pub voucher_redeemed_amt : ℤ

pub record DealEnvironment (W : Type 0) : Type 0 where
  pub get_channel : W → ℕ → ℕ → ℤ → W × Result ChannelResponse
  pub wait_for_channel : W → ℕ → W × Result ℕ
  pub allocate_lane : W → ℕ → W × Result ℕ
  pub create_voucher : W → ℕ → ℤ → ℕ → W × Result VoucherCreateResult
  pub channel_available_funds : W → ℕ → W × Result AvailableFunds
  pub open_data_transfer : W → ℕ → Proposal → W × Result ℕ
  -- channel id, deal id, payment channel, voucher
  pub send_data_transfer_voucher : W → ℕ → ℕ → ℕ → ℕ → W × Result (Unit {0})
  pub close_data_transfer : W → ℕ → W × Result (Unit {0})

-- `calcAmountToSend`
unfoldable pub calc_amount_to_send : ClientState → ℤ
calc_amount_to_send ds =
    let amount = λ (bytes : ℕ). from_int64 bytes *ℤ ds.price_per_byte +ℤ ds.unseal_price in
    if leb_ℤ ds.unseal_price ds.unseal_funds_paid && not ds.all_blocks_received
    then (if ltb ds.total_received ds.current_interval then pos 0 else amount ds.current_interval)
    else amount ds.total_received

-- `Ongoing`
unfoldable pub on_ongoing : ClientState → Option Event
on_ongoing ds =
    if ltb_ℤ (pos 0) ds.payment_requested
    then (if ds.last_payment_requested
        then some (last_payment_requested (pos 0))
        else some (payment_requested (pos 0)))
    else none

-- `ProcessPaymentRequested`
unfoldable pub process_payment_requested : ClientState → Option Event
process_payment_requested ds =
    if ltb_ℤ ds.unseal_funds_paid ds.unseal_price
    then some sends_funds
    else if leb ds.total_received ds.bytes_paid_for
    then none
    else if ds.all_blocks_received
    then some sends_funds
    else if leb ds.current_interval ds.total_received
    then some sends_funds
    else none

-- `CheckComplete`
unfoldable pub on_check_complete : ClientState → Event
on_check_complete ds =
    if ds.all_blocks_received
    then complete_verified
    else if is_zero ds.price_per_byte
    then wait_for_last_blocks
    else early_termination

module _ {W : Type 0} (env : DealEnvironment W) where
  -- `ProposeDeal`
  unfoldable pub propose_deal : W → ClientState → W × Event
  propose_deal w ds =
      let (w', opened) = env.open_data_transfer w ds.sender ds.proposal in
      elim opened [
        | err e ↦ (w', write_deal_proposal_errored e)
        | ok channel_id ↦ (w', deal_proposed channel_id)
      ]

  -- `SetupPaymentChannelStart`
  unfoldable pub setup_payment_channel_start : W → ClientState → W × Event
  setup_payment_channel_start w ds =
      if is_zero ds.total_funds
      then (w, payment_channel_skip)
      else (let (w', got) = env.get_channel w ds.client_wallet ds.miner_wallet ds.total_funds in
          elim got [
            | err e ↦ (w', payment_channel_errored e)
            | ok res ↦ (
              w',
              (if res.channel == 0
                  then payment_channel_create_initiated res.wait_sentinel
                  else if res.wait_sentinel == 0
                  then payment_channel_ready res.channel
                  else payment_channel_adding res.wait_sentinel res.channel),
            )
          ])

  -- `WaitPaymentChannelReady`
  unfoldable pub wait_payment_channel_ready : W → ClientState → Option (W × Event)
  wait_payment_channel_ready w ds =
      Option.map
        (λ msg.
          let (w', ready) = env.wait_for_channel w msg in
          elim ready [
            | err e ↦ (w', payment_channel_errored e)
            | ok paych ↦ (w', payment_channel_ready paych)
          ])
        ds.wait_msg_cid

  -- `AllocateLane`
  unfoldable pub allocate_lane : W → ClientState → Option (W × Event)
  allocate_lane w ds =
      Option.map
        (λ info.
          let (w', allocated) = env.allocate_lane w info.pay_ch in
          elim allocated [
            | err e ↦ (w', allocate_lane_errored e)
            | ok lane ↦ (w', lane_allocated lane)
          ])
        ds.payment_info

  -- The end of `SendFunds`: the voucher goes to the provider.
  unfoldable pub send_voucher : W → ClientState → ℕ → ℤ → ℕ → W × Event
  send_voucher w ds pay_ch total_price voucher =
      let (w', sent) = env.send_data_transfer_voucher w ds.channel_id ds.id pay_ch voucher in
      elim sent [
        | err e ↦ (w', write_deal_payment_errored e)
        | ok _ ↦ (w', payment_sent total_price)
      ]

  -- The part of `SendFunds` that creates the voucher.
  unfoldable pub pay_with : W → ClientState → ℤ → PaymentInfo → W × Event
  unfolding send_voucher
  pay_with w ds total_price info =
      let (w', created) = env.create_voucher w info.pay_ch total_price info.lane in
      elim created [
        | err e ↦ (w', create_voucher_failed e)
        | ok v ↦
            if ltb_ℤ (pos 0) v.shortfall
            then (w', voucher_shortfall v.shortfall)
            else send_voucher w' ds info.pay_ch total_price v.voucher
      ]

  -- `SendFunds`
  unfoldable pub on_send_funds : W → ClientState → Option (W × Event)
  unfolding pay_with
  on_send_funds w ds =
      let total_price = calc_amount_to_send ds in
      if leb_ℤ total_price ds.funds_spent
      then some (w, payment_not_sent)
      else Option.map (pay_with w ds total_price) ds.payment_info

  -- The decision of `CheckFunds` on the funds of the channel.
  unfoldable pub weigh_funds : ClientState → ℕ → AvailableFunds → Event
  weigh_funds ds pay_ch funds =
      let shortfall =
        calc_amount_to_send ds -ℤ (funds.confirmed_amt -ℤ funds.voucher_redeemed_amt) in
      let in_flight = funds.pending_amt +ℤ funds.queued_amt in
      if leb_ℤ shortfall (pos 0)
      then payment_channel_ready pay_ch
      else if ltb_ℤ in_flight shortfall
      then funds_expended (shortfall -ℤ in_flight)
      else (elim funds.pending_wait_sentinel [
        | none ↦ funds_expended (shortfall -ℤ in_flight)
        | some sentinel ↦ payment_channel_adding sentinel pay_ch
      ])

  -- `CheckFunds`
  unfoldable pub on_check_funds : W → ClientState → Option (W × Event)
  unfolding weigh_funds
  on_check_funds w ds =
      Option.map
        (λ (info : PaymentInfo). elim ds.wait_msg_cid [
          | some msg ↦ (w, payment_channel_adding msg info.pay_ch)
          | none ↦
              let (w', available) = env.channel_available_funds w info.pay_ch in
              elim available [
                | err e ↦ (w', payment_channel_errored e)
                | ok funds ↦ (w', weigh_funds ds info.pay_ch funds)
              ]
        ])
        ds.payment_info

  -- `CancelDeal`
  unfoldable pub cancel_deal : W → ClientState → W × Event
  cancel_deal w ds =
      let (w', closed) = env.close_data_transfer w ds.channel_id in
      elim closed [ err e ↦ (w', data_transfer_error e) | ok _ ↦ (w', cancel_complete) ]

  abbrev always : W × Event → Option (W × Option Event)
  always r = some (r.0, some r.1)

  abbrev unless_nil : Option (W × Event) → Option (W × Option Event)
  unless_nil r = Option.map (λ q. (q.0, some q.1)) r

  -- `StateEntryFuncs`
  unfoldable pub handle : Status → W → ClientState → Option (W × Option Event)
  unfolding propose_deal setup_payment_channel_start wait_payment_channel_ready allocate_lane
      on_send_funds on_check_funds cancel_deal
  handle new w ds = always (propose_deal w ds)
  handle accepted w ds = always (setup_payment_channel_start w ds)
  handle payment_channel_creating w ds = unless_nil (wait_payment_channel_ready w ds)
  handle payment_channel_adding_initial_funds w ds = unless_nil (wait_payment_channel_ready w ds)
  handle payment_channel_allocating_lane w ds = unless_nil (allocate_lane w ds)
  handle ongoing w ds = some (w, on_ongoing ds)
  handle funds_needed w ds = some (w, process_payment_requested ds)
  handle funds_needed_last_payment w ds = some (w, process_payment_requested ds)
  handle send_funds w ds = unless_nil (on_send_funds w ds)
  handle send_funds_last_payment w ds = unless_nil (on_send_funds w ds)
  handle check_funds w ds = unless_nil (on_check_funds w ds)
  handle payment_channel_adding_funds w ds = unless_nil (wait_payment_channel_ready w ds)
  handle failing w ds = always (cancel_deal w ds)
  handle cancelling w ds = always (cancel_deal w ds)
  handle check_complete w ds = some (w, some (on_check_complete ds))
  handle _ w ds = some (w, none)
