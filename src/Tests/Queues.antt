-- ===== src/Tests/Queues.antt =====
-- payments/channel.go and manager.go: the queue of requests, and the vouchers
-- that are submitted.
use go_hop_exchange.Prelude.{
  ℕ, ◌≡◌, refl, ◌⊎◌, Bool, true, false, some, List, [], ◌∷◌, pos, ◌+ℤ◌, ◌-ℤ◌, All, map, ◌==◌,
  if◌then◌else◌,
}
use go_hop_exchange.Payments.Types.{Voucher, VoucherInfo, not_tracked, Answer, given, failed}
use go_hop_exchange.Payments.Store.{
  by_address, find_chan, find_chans, find_rows, unmarshall_channel_info, outbound_active_by_from_to,
}
use go_hop_exchange.Payments.Requests.{FundsReq, filter_queue, merged_sum}
use go_hop_exchange.Payments.Funds.{process_task, task_for}
use go_hop_exchange.Payments.Queue.{Processed, keeps, process_active, process_queue, finish}
use go_hop_exchange.Payments.Queueing.{tickets, Active, process_queue-tickets}
use go_hop_exchange.Payments.Vouchers.{submit_voucher, may_submit}
use go_hop_exchange.Payments.Redeeming.{best_of, keep_best, best_at, set_best, submit_each, counted}
use go_hop_exchange.Payments.Best.{IsServed, IsSpendable, best_of-IsBest}
use go_hop_exchange.Payments.Messages.{load_actor_state}
use go_hop_exchange.Payments.Lanes.{lane_state, apply_voucher, lane_at, set_lane, redeemed_sum}
use go_hop_exchange.Payments.Store.{by_channel_id, by_address, vouchers_for_paych}
use go_hop_exchange.Payments.Vouchers.{paych_lanes}
use go_hop_exchange.Payments.Funds.{current_available_funds, available_funds}
use go_hop_exchange.Payments.Access.{open_at, choose, get_channel}
use go_hop_exchange.Payments.Covering.{Covers, get_channel-Covers}
use go_hop_exchange.Tests.Channels.{voucher, quiet, busy, busy_channel}

abbrev request : ℕ → Bool → FundsReq
request n b = record { ticket = n; active = b; amt = pos 5 }

abbrev three_requests : List FundsReq
three_requests = request 1 true ∷ request 2 false ∷ request 3 true ∷ []

busy_found : outbound_active_by_from_to busy tt 1 2 ≡ given busy_channel
unfolding outbound_active_by_from_to find_chan find_chans find_rows unmarshall_channel_info
busy_found = refl

abbrev kept : Processed (Unit {0})
kept = keeps busy tt (request 1 true ∷ request 3 true ∷ []) 4 (pos 10)

run : process_queue busy tt 1 2 three_requests 4 ≡ some kept
unfolding process_queue process_active filter_queue merged_sum process_task task_for
    outbound_active_by_from_to find_chan find_chans find_rows unmarshall_channel_info finish ◌+ℤ◌
run = refl

process_queue-tickets_example :
    (rs : List FundsReq) × Active three_requests rs
    × (((kept.queue ≡ rs) × (kept.delivered ≡ []))
        ⊎ ((kept.queue ≡ []) × (map (λ d. d.0) kept.delivered ≡ tickets rs)))
process_queue-tickets_example = process_queue-tickets busy tt 1 2 4 three_requests kept run

abbrev entry : Voucher → VoucherInfo
entry v = record { voucher = v; submitted = false }

-- Vouchers of nonce 3 are spent.
abbrev spendable : Voucher → Answer Bool
spendable v = given (if v.nonce == 3 then false else true)

abbrev vouchers : List VoucherInfo
vouchers =
    entry (voucher 1 1 20)
    ∷ entry (voucher 1 2 30)
    ∷ entry (voucher 1 3 40)
    ∷ entry (voucher 2 1 5)
    ∷ []

abbrev best : List Voucher
best = voucher 1 2 30 ∷ voucher 2 1 5 ∷ []

best_run : best_of spendable [] vouchers ≡ given best
unfolding best_of keep_best best_at set_best
best_run = refl

best_of-IsBest_example : All (IsSpendable spendable) best × All (IsServed spendable best) vouchers
best_of-IsBest_example = best_of-IsBest spendable best vouchers best_run

refused : (submit_voucher quiet tt 8 (voucher 9 9 9) 0).1 ≡ failed not_tracked
unfolding submit_voucher may_submit by_address find_chan find_chans find_rows
    unmarshall_channel_info
refused = refl

none_sent : (submit_each quiet tt 8 (voucher 9 9 9 ∷ [])).1 ≡ given []
unfolding submit_each counted submit_voucher by_address find_chan find_chans find_rows
    unmarshall_channel_info
none_sent = refl

-- The channel has 100, its lanes redeem 30, and 40 are asked for.
abbrev nothing_queued : Processed (Unit {0})
nothing_queued = keeps quiet tt [] 4 (pos 0)

answered : get_channel quiet tt 1 2 [] (pos 40) ≡ some (some nothing_queued, given (open_at 7))
unfolding get_channel process_queue process_active filter_queue choose outbound_active_by_from_to
    find_chan find_chans find_rows unmarshall_channel_info current_available_funds available_funds
    by_channel_id load_actor_state paych_lanes vouchers_for_paych by_address lane_state
    apply_voucher lane_at set_lane redeemed_sum ◌+ℤ◌ ◌-ℤ◌
answered = refl

get_channel-Covers_example : Covers quiet 1 2 tt (pos 40) 7 nothing_queued
get_channel-Covers_example = get_channel-Covers quiet tt 1 2 [] (pos 40) nothing_queued 7 answered
