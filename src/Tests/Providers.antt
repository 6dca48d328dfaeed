-- ===== src/Tests/Providers.antt =====
-- retrieval/provider and the revalidator on one deal.
use Prim.Native.String.{String}
use go_hop_exchange.Prelude.{
  suc, ◌≡◌, refl, sym, ap, ◌⊎◌, true, false, Option, none, some, List, [], ◌∷◌, arith, Any, ℤ, pos,
  ◌+ℤ◌, ◌-ℤ◌, ◌*ℤ◌, ◌≤ℤ◌, ◌<ℤ◌, is_zero, ◌<◌, ◌+◌, ℕ, u64, Result, ok, err,
}
use go_hop_exchange.Deal.Status.{
  new, ongoing, funds_needed, blocks_complete, completing, completed, same_status,
}
use go_hop_exchange.Deal.Params.{Proposal, next_loop, next_interval, interval_lower_bound}
use go_hop_exchange.Deal.Schedule.{boundary}
use go_hop_exchange.Deal.Offer.{Response, get_ask}
use go_hop_exchange.Fsm.{route}
use go_hop_exchange.Provider.Chart.{
  ProviderState, Event, deal_accepted, blocks_completed, complete, cleanup_complete,
  payment_requested, payment_received, rules, action, trigger,
}
use go_hop_exchange.Provider.Run.{Run, begin, next, opened, Run-after_blocks, Run-current_interval}
use go_hop_exchange.Provider.Revalidator.{
  Identifier, ChannelData, Payment, Signal, pause, resume, Env, find, write, payment_owed,
  owed_response, Reply,
}
use go_hop_exchange.Provider.Meter.{process_payment, on_pull_data_sent}
use go_hop_exchange.Provider.Metering.{Starts, on_pull_data_sent-bounded}
use go_hop_exchange.Provider.Owed.{Missing}
use go_hop_exchange.Provider.Payments.{process_payment-pause, resume_pays_boundary}
use go_hop_exchange.Provider.Validation.{
  begin_tracking_by, proposal_voucher, check_deal_params, get_store_id, accept_deal, initial_state,
  expected_selector, validate_pull,
}
use go_hop_exchange.Provider.Acceptance.{Meets, validate_pull-tracked, zero_interval_hangs}
use go_hop_exchange.Tests.Machine.{reference}
use go_hop_exchange.Tests.Deals.{terms}

abbrev pub offer : Proposal
offer = record { payload_cid = 7; id = 3; params = terms }

abbrev pub start : ProviderState
start = record {
  proposal = offer;
  store_id = 0;
  channel_id = 11;
  piece_info = none;
  status = new;
  receiver = 5;
  total_sent = 0;
  funds_received = pos 0;
  message = "";
  current_interval = 100;
  pay_ch = none;
}

abbrev waiting : ProviderState
waiting = record start { status = funds_needed; total_sent = 120 }

abbrev paid : ProviderState
paid = record waiting {
  status = ongoing;
  funds_received = pos 250;
  current_interval = 210;
  pay_ch = some 9;
}

abbrev finished : ProviderState
finished = record paid { status = completed }

abbrev history : List Event
history =
    cleanup_complete
    ∷ complete
    ∷ blocks_completed
    ∷ payment_received (pos 250) 9
    ∷ payment_requested 120
    ∷ deal_accepted
    ∷ []

running : Run reference start history finished
unfolding trigger rules action route ◌+ℤ◌ next_interval
running =
    next {handled = true} cleanup_complete
      (next {u = record paid { status = completing }} {handled = true} complete
        (next {u = record paid { status = blocks_complete }} {handled = true} blocks_completed
          (next {u = paid} {handled = true} (payment_received (pos 250) 9)
            (next {u = waiting} {handled = true} (payment_requested 120)
              (next {u = record start { status = ongoing }} {handled = true} deal_accepted begin
                refl)
              refl)
            refl)
          refl)
        refl)
      refl

Run-after_blocks_example : Any (λ e. e ≡ blocks_completed) history
Run-after_blocks_example = Run-after_blocks reference start finished history refl running refl

Run-current_interval_example : 210 ≡ boundary terms (suc (opened history))
Run-current_interval_example =
    Run-current_interval reference start finished history (omega arith) refl (omega arith) running

-- The environment of the revalidator: one deal, events are dropped, and a voucher brings 300.
abbrev waiting_here : ProviderState
waiting_here = record waiting { current_interval = 210 }

abbrev deals : Env (Unit {0})
deals = record {
  get = λ w id. ok waiting_here;
  send_event = λ w id e. (w, none);
  add_voucher_inbound = λ w ch v. (w, ok (pos 300));
}

abbrev poor_deals : Env (Unit {0})
poor_deals = record deals { add_voucher_inbound = λ w ch v. (w, ok (pos 100)) }

abbrev deal_id : Identifier
deal_id = record { receiver = 5; deal_id = 3 }

abbrev payment : Payment
payment = record { id = 3; payment_channel = 9; payment_voucher = 1 }

abbrev channel : ChannelData
channel = record {
  deal = deal_id;
  total_sent = 20;
  total_paid_for = 0;
  interval = 100;
  price_per_byte = pos 2;
  reload = false;
  legacy_protocol = false;
}

abbrev metered : Reply (Unit {0})
metered = record {
  handled = true;
  response = none;
  signal = none;
  world = tt;
  tracked = (11, record channel { total_sent = 50 }) ∷ [];
}

-- The deals of this channel alone.
owns_channel : (d : ProviderState) → ok waiting_here ≡ ok d → d.channel_id ≡ 11
owns_channel d h = ap (λ r. channel_of r) (sym h)
  where
    channel_of : Result ProviderState → ℕ
    channel_of (ok x) = x.channel_id
    channel_of (err e) = 0

on_pull_data_sent-bounded_example :
    (sent : ℕ) × (interval : ℕ) × (price : ℤ) × Starts deals tt channel sent interval price
    × (c : ChannelData) × (find 11 metered.tracked ≡ some c)
    × (c.total_sent ≡ u64 (sent + 30))
    × ((is_zero price ≡ true) ⊎ (u64 (sent + 30) < interval))
unfolding on_pull_data_sent find write
on_pull_data_sent-bounded_example =
    on_pull_data_sent-bounded deals tt ((11, channel) ∷ []) 11 30 channel metered owns_channel refl
      refl refl

abbrev goes_on : Option Response × Signal × Unit {0}
goes_on = (none, resume, tt)

resumed : process_payment deals tt deal_id payment ≡ some goes_on
unfolding process_payment payment_owed interval_lower_bound ◌+ℤ◌ ◌-ℤ◌ ◌*ℤ◌ same_status
resumed = refl

abbrev asks_more : Option Response × Signal × Unit {0}
asks_more = (some (owed_response 3 funds_needed (pos 105)), pause, tt)

paused : process_payment poor_deals tt deal_id payment ≡ some asks_more
unfolding process_payment payment_owed interval_lower_bound ◌+ℤ◌ ◌-ℤ◌ ◌*ℤ◌
paused = refl

process_payment-pause_example :
    (d : ProviderState) × (received : ℤ) × (owed : ℤ) × (poor_deals.get tt deal_id ≡ ok d)
    × ((poor_deals.add_voucher_inbound tt 9 1).1 ≡ ok received)
    × (asks_more.0 ≡ some (owed_response d.id d.status owed))
    × (pos 0 <ℤ owed)
    × Missing d (d.funds_received +ℤ received) owed
process_payment-pause_example =
    process_payment-pause poor_deals tt deal_id payment asks_more paused refl

resume_pays_boundary_example : pos 5 +ℤ pos 100 *ℤ pos 2 ≤ℤ pos 0 +ℤ pos 300
resume_pays_boundary_example =
    resume_pays_boundary deals tt deal_id payment goes_on
      (record waiting { current_interval = 210 }) (pos 300) 1 refl refl (omega arith) (omega arith)
      (omega arith) refl resumed refl

-- A provider that asks for nothing, and takes every deal.
abbrev takes : ProviderState → Result (Option String)
takes = begin_tracking_by (λ d. none) (λ d. none)

abbrev free_offer : Proposal
free_offer = record offer {
  params = record terms { payment_interval = 0; payment_interval_increase = 0 };
}

Meets_example : Meets [] offer
unfolding get_ask
Meets_example = record { price = omega arith; interval = omega arith; increase = omega arith }

tracks :
    (validate_pull
      (check_deal_params [])
      get_store_id
      takes
      1
      false
      11
      5
      (proposal_voucher offer)
      7
      (ok 1)).tracked
    ≡ some start
unfolding validate_pull check_deal_params get_ask accept_deal get_store_id
tracks = refl

validate_pull-tracked_example :
    (p : Proposal) × (proposal_voucher offer ≡ proposal_voucher p)
    × (p.payload_cid ≡ 7)
    × (ok 1 ≡ ok (expected_selector 1 p))
    × (false ≡ false)
    × Meets [] p
    × (start ≡ initial_state 11 p 5)
validate_pull-tracked_example =
    validate_pull-tracked [] takes 1 11 5 7 false (proposal_voucher offer) (ok 1) start tracks

zero_interval_hangs_example :
    ((validate_pull
        (check_deal_params [])
        get_store_id
        takes
        1
        false
        11
        5
        (proposal_voucher free_offer)
        7
        (ok 1)).tracked
      ≡ some (initial_state 11 free_offer 5))
    × (next_loop 1000 0 0 0 0 ≡ none)
unfolding get_ask
zero_interval_hangs_example =
    zero_interval_hangs [] takes 1 11 5 7 free_offer 1000 0 refl (omega arith) refl refl refl
