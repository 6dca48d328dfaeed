-- ===== src/Payments/Access.antt =====
-- payments/manager.go: the operations that find a channel's accessor and pass on to it. The accessor
-- of a channel is its two addresses and its queue of requests; the cache only shares accessors.
use package.text.Mathlib.Text.{◌==◌ as ◌=s=◌}
use go_hop_exchange.Prelude.{
  ℕ, Bool, true, Option, none, some, List, [], ◌∷◌, ◌++◌, ◌==◌, if◌then◌else◌, ℤ, ◌-ℤ◌, ltb_ℤ,
}
use go_hop_exchange.Payments.Types.{
  Voucher, VoucherInfo, ChannelInfo, Failure, text, Answer, given, failed, crashed, ◌>>=◌, wrap,
}
use go_hop_exchange.Payments.Env.{Env, of_result, after}
use go_hop_exchange.Payments.Store.{
  by_address, by_message_cid, outbound_active_by_from_to, vouchers_for_paych, allocate_lane,
}
use go_hop_exchange.Payments.Vouchers.{
  VoucherCreateResult, create_voucher, submit_voucher, check_voucher_spendable,
}
use go_hop_exchange.Payments.Requests.{FundsReq}
use go_hop_exchange.Payments.Funds.{AvailableFunds}
use go_hop_exchange.Payments.Queue.{Processed, process_queue}

-- What `getWaitReady` comes to: an address, or the promise of a message that is still waited for.
pub data Ready : Type 0 where
  at : ℕ → Ready
  promised : Ready

-- What `GetChannel` does with the funds of a channel that is there: it answers with its address, or
-- puts a request in the queue.
pub data Access : Type 0 where
  open_at : ℕ → Access
  requests : Access

-- `*ci.Channel`, which panics where there is no address.
abbrev pub deref : Option ℕ → Answer ℕ
deref none = crashed
deref (some a) = given a

abbrev pub address_of : ChannelInfo → Answer ℕ
address_of ci = deref ci.channel

-- The choice of `GetChannel`; funds that are nil are a panic.
unfoldable pub choose : ChannelInfo → ℤ → Option AvailableFunds → Answer Access
choose ci amt none = crashed
choose ci amt (some f) =
    if ltb_ℤ amt (f.confirmed_amt -ℤ f.voucher_redeemed_amt)
    then (address_of ci >>= λ a. given (open_at a))
    else given requests

-- A request of `get`, with its ticket, which `enqueue` puts last.
abbrev pub enqueue : ℕ → ℤ → List FundsReq → List FundsReq
enqueue ticket amt queue = queue ++ (record { ticket = ticket; amt = amt; active = true } ∷ [])

-- The voucher that `CreateVoucher` begins with.
abbrev pub blank_voucher : ℤ → ℕ → Voucher
blank_voucher amt lane = record {
  channel_addr = 0;
  lane = lane;
  nonce = 0;
  amount = amt;
  merges = 0;
  terms = 0;
  signature = 0;
}

module _ {W : Type 0} (env : Env W) where
  -- `GetChannel` up to `get`, with the run of the queue that `availableFunds` is. An error of
  -- `OutboundActiveByFromTo`, whichever it is, leads to a request; `none` is a panic of the run.
  unfoldable pub get_channel :
      W → ℕ → ℕ → List FundsReq → ℤ → Option (Option (Processed W) × Answer Access)
  unfolding outbound_active_by_from_to process_queue choose
  get_channel w from to queue amt = elim (outbound_active_by_from_to env w from to) [
    | crashed ↦ none
    | failed _ ↦ some (none, given requests)
    | given ci ↦ elim (process_queue env w from to queue ci.channel_id) [
      | none ↦ none
      | some p ↦
          some (some p, (wrap "unable to get channel available funds" p.funds >>= choose ci amt))
    ]
  ]

  -- `getWaitReady`: a message that failed says so, one that is confirmed has a channel.
  unfoldable pub get_wait_ready : W → ℕ → Answer Ready
  unfolding by_message_cid
  get_wait_ready w mcid = of_result (env.get_msg w mcid) >>= λ info.
      if info.err =s= ""
      then (if info.received
          then (by_message_cid env w mcid >>= λ ci. address_of ci >>= λ a. given (at a))
          else given promised)
      else failed (text info.err)

  -- `msgPromise`, once the message is complete, with or without an error.
  unfoldable pub keep_promise : W → ℕ → Option Failure → Answer ℕ
  unfolding by_message_cid
  keep_promise w mcid (some e) = failed e
  keep_promise w mcid none = by_message_cid env w mcid >>= address_of

  -- `CreateVoucher`
  unfoldable pub create_voucher_for : W → ℕ → ℤ → ℕ → W × Answer VoucherCreateResult
  unfolding by_address create_voucher
  create_voucher_for w addr amt lane =
      after (w, wrap "Unable to find channel to create voucher for" (by_address env w addr))
        (λ w _. create_voucher env w addr (blank_voucher amt lane))

  -- `AllocateLane`
  unfoldable pub allocate_lane_for : W → ℕ → W × Answer ℕ
  unfolding by_address allocate_lane
  allocate_lane_for w addr =
      after (w, wrap "Unable to find channel to allocate lane" (by_address env w addr))
        (λ w _. allocate_lane env w addr)

  -- `ChannelAvailableFunds`: the run of the queue that it is.
  unfoldable pub channel_available_funds : W → ℕ → List FundsReq → Answer (Option (Processed W))
  unfolding by_address process_queue
  channel_available_funds w addr queue = by_address env w addr >>= λ ci.
      given (process_queue env w ci.control ci.target queue ci.channel_id)

  -- `ListVouchers`
  unfoldable pub list_vouchers : W → ℕ → Answer (List VoucherInfo)
  unfolding by_address vouchers_for_paych
  list_vouchers w addr = by_address env w addr >>= λ _. vouchers_for_paych env w addr

  -- `SubmitVoucher`; a proof is a number, 0 if there is none.
  unfoldable pub submit_voucher_with : W → ℕ → Voucher → ℕ → ℕ → W × Answer ℕ
  unfolding by_address submit_voucher
  submit_voucher_with w addr sv secret proof =
      if proof == 0
      then after (w, by_address env w addr) (λ w _. submit_voucher env w addr sv secret)
      else (w, failed (text "err proof not supported"))

  -- `CheckVoucherSpendable`
  unfoldable pub check_voucher_spendable_with : W → ℕ → ℕ → Voucher → ℕ → ℕ → Answer Bool
  unfolding by_address check_voucher_spendable
  check_voucher_spendable_with w to addr sv secret proof =
      if proof == 0
      then (by_address env w addr >>= λ _. check_voucher_spendable env w to addr sv secret)
      else failed (text "proof not supported yet")
