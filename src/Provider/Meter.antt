-- ===== src/Provider/Meter.antt =====
-- retrieval/validators.go: the calls of the revalidator. An outer `none` is a panic or an interval
-- loop that has not ended on its fuel.
use Prim.Native.String.{String}
use go_hop_exchange.Prelude.{
  ℕ, ◌+◌, Bool, true, false, ◌||◌, Option, none, some, ℤ, pos, ◌+ℤ◌, ◌*ℤ◌, ltb_ℤ, is_zero, ltb,
  if◌then◌else◌, u64, sub_u64, from_int64, ok, err,
}
use mathlib.Core.Option
use go_hop_exchange.Deal.Status.{funds_needed, funds_needed_last_payment, completed, same_status}
use go_hop_exchange.Deal.Offer.{Response}
use go_hop_exchange.Provider.Chart.{
  ProviderState, block_sent, blocks_completed, payment_requested, save_voucher_failed,
  partial_payment_received, payment_received,
}
use go_hop_exchange.Provider.Revalidator.{
  Identifier, ChannelData, Payment, SettlementVoucher, payment_voucher, other_voucher, Signal,
  pause, resume, failed, Env, Tracked, find, write, write_deal_state, payment_owed,
  error_deal_response, owed_response, Reply,
}

module _ {W : Type 0} (env : Env W) where
  -- The end of `processPayment`: the payment is recorded, and the deal waits or goes on.
  unfoldable pub settle_payment :
      W → ProviderState → Identifier → Payment → ℤ → ℤ → Option Response × Signal × W
  settle_payment w d id payment received owed =
      if ltb_ℤ (pos 0) owed
      then (
        some (owed_response d.id d.status owed),
        pause,
        (env.send_event w id (partial_payment_received received payment.payment_channel)).0,
      )
      else (
        if same_status d.status funds_needed_last_payment
            then some (owed_response d.id completed (pos 0))
            else none,
        resume,
        (env.send_event w id (payment_received received payment.payment_channel)).0,
      )

  -- `processPayment`
  unfoldable pub process_payment : W → Identifier → Payment → Option (Option Response × Signal × W)
  unfolding settle_payment
  process_payment w id payment = elim (env.get w id) [
    | err e ↦ some (some (error_deal_response id e), failed e, w)
    | ok d ↦
        let (w', added) =
          env.add_voucher_inbound w payment.payment_channel payment.payment_voucher in
        elim added [
          | err e ↦ some (
            some (error_deal_response id e),
            failed e,
            (env.send_event w' id (save_voucher_failed e)).0,
          )
          | ok received ↦
              Option.map (settle_payment w' d id payment received)
                (payment_owed d (d.funds_received +ℤ received))
        ]
  ]

  abbrev set_reload : Bool → ChannelData → ChannelData
  set_reload b c = record c { reload = b }

  -- After a payment that lets the transfer go on the deal's state is read again.
  unfoldable pub mark_reload : ℕ → Signal → Tracked → Option Tracked
  mark_reload chid resume t = write chid (set_reload true) t
  mark_reload chid _ t = some t

  -- `Revalidate`
  unfoldable pub revalidate : W → Tracked → ℕ → SettlementVoucher → Option (Reply W)
  unfolding process_payment mark_reload
  revalidate w t chid voucher = elim (find chid t) [
    | none ↦
        some (record { handled = false; response = none; signal = none; world = w; tracked = t })
    | some channel ↦ elim voucher [
      | other_voucher ↦ some (record {
        handled = true;
        response = none;
        signal = some (failed "wrong voucher type");
        world = w;
        tracked = t;
      })
      | payment_voucher payment ↦ elim (process_payment w channel.deal payment) [
        | none ↦ none
        | some result ↦
            Option.map
              (λ t'. record {
                handled = true;
                response = result.0;
                signal = some result.1;
                world = result.2;
                tracked = t';
              })
              (mark_reload chid result.1 t)
      ]
    ]
  ]

  -- `loadDealState`: the error of `Get`, if there is one.
  unfoldable pub load_deal_state : W → ℕ → ChannelData → Tracked → Option (Option String × Tracked)
  load_deal_state w chid channel t =
      if channel.reload
      then (elim (env.get w channel.deal) [
        | err e ↦ some (some e, t)
        | ok d ↦ elim (write_deal_state d t) [
          | none ↦ none
          | some t' ↦ Option.map (λ t''. (none, t'')) (write chid (set_reload false) t')
        ]
      ])
      else some (none, t)

  abbrev replies : Option Response → Option Signal → W → Tracked → Reply W
  replies response signal w t = record {
    handled = true;
    response = response;
    signal = signal;
    world = w;
    tracked = t;
  }

  -- What a `SendEvent` returns as the error of the call.
  abbrev failure : Option String → Option Signal
  failure none = none
  failure (some e) = some (failed e)

  -- The end of a call that asks for a payment.
  unfoldable pub request_payment : W → Tracked → ChannelData → (ℤ → Response) → ℤ → Reply W
  request_payment w t channel response owed =
      let (w', error) = env.send_event w channel.deal (payment_requested channel.total_sent) in
      elim error [
        | some e ↦ replies none (some (failed e)) w' t
        | none ↦ replies (some (response owed)) (some pause) w' t
      ]

  -- The price of the bytes that were sent and are not paid for.
  unfoldable pub unpaid : ChannelData → ℤ
  unpaid c = from_int64 (sub_u64 c.total_sent c.total_paid_for) *ℤ c.price_per_byte

  -- The part of `OnPullDataSent` behind the reading of the deal.
  unfoldable pub meter : W → ℕ → ChannelData → Tracked → Reply W
  unfolding request_payment unpaid
  meter w chid channel t =
      if is_zero channel.price_per_byte || ltb channel.total_sent channel.interval
      then (let (w', error) = env.send_event w channel.deal (block_sent channel.total_sent) in
          replies none (failure error) w' t)
      else request_payment w t channel (owed_response channel.deal.deal_id funds_needed)
          (unpaid channel)

  abbrev pub add_sent : ℕ → ChannelData → ChannelData
  add_sent bytes c = record c { total_sent = u64 (c.total_sent + bytes) }

  -- `OnPullDataSent`
  unfoldable pub on_pull_data_sent : W → Tracked → ℕ → ℕ → Option (Reply W)
  unfolding load_deal_state meter
  on_pull_data_sent w t chid bytes = elim (find chid t) [
    | none ↦
        some (record { handled = false; response = none; signal = none; world = w; tracked = t })
    | some channel ↦ elim (load_deal_state w chid channel t) [
      | none ↦ none
      | some loaded ↦ elim loaded.0 [
        | some e ↦ some (replies none (some (failed e)) w loaded.1)
        | none ↦ elim (write chid (add_sent bytes) loaded.1) [
          | none ↦ none
          | some t' ↦ Option.map (λ c. meter w chid c t') (find chid t')
        ]
      ]
    ]
  ]

  -- The part of `OnComplete` behind the reading of the deal.
  unfoldable pub finish : W → ChannelData → Tracked → Reply W
  unfolding request_payment unpaid
  finish w channel t =
      let (w', error) = env.send_event w channel.deal blocks_completed in
      elim error [
        | some e ↦ replies none (some (failed e)) w' t
        | none ↦
            if is_zero (unpaid channel)
            then replies (some (owed_response channel.deal.deal_id completed (pos 0))) none w' t
            else request_payment w' t channel
                (owed_response channel.deal.deal_id funds_needed_last_payment) (unpaid channel)
      ]

  -- `OnComplete`
  unfoldable pub on_complete : W → Tracked → ℕ → Option (Reply W)
  unfolding load_deal_state finish
  on_complete w t chid = elim (find chid t) [
    | none ↦
        some (record { handled = false; response = none; signal = none; world = w; tracked = t })
    | some channel ↦ elim (load_deal_state w chid channel t) [
      | none ↦ none
      | some loaded ↦ elim loaded.0 [
        | some e ↦ some (replies none (some (failed e)) w loaded.1)
        | none ↦ Option.map (λ c. finish w c loaded.1) (find chid loaded.1)
      ]
    ]
  ]
