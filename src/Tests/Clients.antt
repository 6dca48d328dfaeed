-- ===== src/Tests/Clients.antt =====
-- retrieval/client on one deal.
use go_hop_exchange.Prelude.{
  ◌≡◌, refl, false, none, some, arith, pos, ◌+ℤ◌, ◌-ℤ◌, ◌*ℤ◌, ◌≤ℤ◌, ◌<ℤ◌, ok, err,
}
use go_hop_exchange.Deal.Status.{send_funds}
use go_hop_exchange.Client.Chart.{ClientState, payment_sent}
use go_hop_exchange.Client.Handlers.{DealEnvironment, calc_amount_to_send, on_send_funds}
use go_hop_exchange.Client.Spending.{on_send_funds-bounded}
use go_hop_exchange.Tests.Providers.{offer}

abbrev pub buying : ClientState
buying = record {
  proposal = offer;
  store_id = none;
  channel_id = 11;
  last_payment_requested = false;
  all_blocks_received = false;
  total_funds = pos 900;
  client_wallet = 1;
  miner_wallet = 2;
  payment_info = some (record { pay_ch = 9; lane = 0 });
  status = send_funds;
  sender = 5;
  total_received = 120;
  message = "";
  bytes_paid_for = 0;
  current_interval = 100;
  payment_requested = pos 200;
  funds_spent = pos 5;
  unseal_funds_paid = pos 5;
  wait_msg_cid = none;
  voucher_shortfall = pos 0;
}

abbrev funded : DealEnvironment (Unit {0})
funded = record {
  get_channel = λ w from to amt. (w, ok (record { channel = 9; wait_sentinel = 0 }));
  wait_for_channel = λ w msg. (w, ok 9);
  allocate_lane = λ w ch. (w, ok 0);
  create_voucher = λ w ch amt lane. (w, ok (record { voucher = 1; shortfall = pos 0 }));
  channel_available_funds = λ w ch. (w, err "none");
  open_data_transfer = λ w to p. (w, ok 11);
  send_data_transfer_voucher = λ w ch id pay v. (w, ok tt);
  close_data_transfer = λ w ch. (w, ok tt);
}

pays : on_send_funds funded tt buying ≡ some (tt, payment_sent (pos 205))
unfolding on_send_funds calc_amount_to_send ◌+ℤ◌ ◌-ℤ◌ ◌*ℤ◌
pays = refl

on_send_funds-bounded_example : (pos 5 <ℤ pos 205) × (pos 205 ≤ℤ pos 120 *ℤ pos 2 +ℤ pos 5)
on_send_funds-bounded_example =
    on_send_funds-bounded buying 2 5 refl refl (omega arith) funded tt tt (pos 205) pays
