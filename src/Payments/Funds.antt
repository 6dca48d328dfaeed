-- ===== src/Payments/Funds.antt =====
-- payments/channel.go: the queue of requests for funds, and the messages that it leads to. A
-- go-routine that waits for a message is a `Waiting`; the condition variables, which only order the
-- calls, are left out.
use go_hop_exchange.Prelude.{ℕ, Bool, true, false, Option, none, some, ◌==◌, if◌then◌else◌, ℤ, pos}
use go_hop_exchange.Payments.Types.{
  ChannelInfo, Direction, inbound, outbound, not_tracked, wrapped, Answer, given, failed, crashed,
  ◌>>=◌,
}
use go_hop_exchange.Payments.Env.{Env, send, after}
use go_hop_exchange.Payments.Lanes.{redeemed_sum}
use go_hop_exchange.Payments.Store.{
  outbound_active_by_from_to, by_channel_id, put_channel_info, create_channel, save_new_message,
}
use go_hop_exchange.Payments.Messages.{message, create_message, load_actor_state, mpool_push}
use go_hop_exchange.Payments.Vouchers.{paych_lanes}
use go_hop_exchange.Payments.Pending.{adding}
use go_hop_exchange.Payments.Requests.{FundsRes, sent, refused}

-- A message that is waited for: the channel's creation, or funds that are added to it.
pub data Waiting : Type 0 where
  for_create : ℕ → ℕ → Waiting
  for_funds : ℕ → ℕ → Waiting

-- What `processTask` returns: nil, or a result, and the go-routine that it started.
pub data Task : Type 0 where
  waits : Task
  done : FundsRes → Task
  started : FundsRes → Waiting → Task

pub record AvailableFunds : Type 0 where
  pub channel : Option ℕ
  pub from : ℕ
  pub to : ℕ
  pub confirmed_amt : ℤ
  pub pending_amt : ℤ
  pub pending_wait_sentinel : Option ℕ
  pub queued_amt : ℤ
  pub voucher_redeemed_amt : ℤ

-- `ChannelInfo.from` and `to`
abbrev pub from_of : Direction → ChannelInfo → ℕ
from_of outbound ci = ci.control
from_of inbound ci = ci.target

abbrev pub to_of : Direction → ChannelInfo → ℕ
to_of outbound ci = ci.target
to_of inbound ci = ci.control

abbrev pub or_else : Option ℕ → Option ℕ → Option ℕ
or_else none b = b
or_else (some a) b = some a

unfoldable pub available_funds : ChannelInfo → ℤ → ℤ → AvailableFunds
available_funds ci queued redeemed = record {
  channel = ci.channel;
  from = from_of ci.direction ci;
  to = to_of ci.direction ci;
  confirmed_amt = ci.amount;
  pending_amt = ci.pending_amount;
  pending_wait_sentinel = or_else ci.create_msg ci.add_funds_msg;
  queued_amt = queued;
  voucher_redeemed_amt = redeemed;
}

-- Whether a message of the channel is not confirmed yet.
abbrev pub is_pending : Option ℕ → Option ℕ → Bool
is_pending none none = false
is_pending _ _ = true

-- A step that ends a request: an error is its result.
abbrev pub or_refused : {W : Type 0} → W × Answer Task → W × Answer Task
or_refused r = elim r.1 [
  | given t ↦ (r.0, given t)
  | failed e ↦ (r.0, given (done (refused e)))
  | crashed ↦ (r.0, crashed)
]

abbrev pub store_error : {W : Type 0} → W × Answer ChannelInfo → W × Answer ChannelInfo
store_error r = elim r.1 [
  | given ci ↦ (r.0, given ci)
  | failed e ↦ (r.0, failed (wrapped "Unable to create channel in store" e))
  | crashed ↦ (r.0, crashed)
]

module _ {W : Type 0} (env : Env W) where
  -- `mutateChannelInfo`, which only logs its errors.
  unfoldable pub mutate_channel_info : W → ℕ → (ChannelInfo → ChannelInfo) → W
  unfolding by_channel_id put_channel_info
  mutate_channel_info w id mutate = elim (by_channel_id env w id) [
    | given ci ↦ (put_channel_info env w (mutate ci)).0
    | failed _ ↦ w
    | crashed ↦ w
  ]

  -- `create`
  unfoldable pub create : W → ℕ → ℕ → ℤ → W × Answer Task
  unfolding mpool_push create_channel
  create w from to amt =
      after (mpool_push env w (create_message env.init_addr from to amt)) (λ w smsg.
        after (store_error (create_channel env w from to (env.message_cid smsg) amt)) (λ w ci. (
          w,
          given (
              started (sent none (env.message_cid smsg))
                (for_create ci.channel_id (env.message_cid smsg))),
        )))

  -- What `addFunds` does once its message is pushed; it only logs the error of `SaveNewMessage`.
  unfoldable pub record_funds : W → ChannelInfo → ℤ → ℕ → W
  unfolding mutate_channel_info adding save_new_message
  record_funds w ci amt mcid =
      (save_new_message env (mutate_channel_info w ci.channel_id (adding amt mcid)) ci.channel_id
        mcid).0

  -- `addFunds`, to the address of the channel.
  unfoldable pub add_funds : W → ChannelInfo → ℕ → ℤ → W × Answer Task
  unfolding mpool_push record_funds
  add_funds w ci addr amt = after (mpool_push env w (message ci.control addr amt send)) (λ w smsg. (
    record_funds w ci amt (env.message_cid smsg),
    given (
        started (sent (some addr) (env.message_cid smsg))
          (for_funds ci.channel_id (env.message_cid smsg))),
  ))

  -- The end of `processTask`, by what `OutboundActiveByFromTo` says.
  unfoldable pub task_for : W → ℕ → ℕ → ℤ → Answer ChannelInfo → W × Answer Task
  unfolding create add_funds
  task_for w from to amt (given ci) = elim (is_pending ci.create_msg ci.add_funds_msg) [
    | true ↦ (w, given waits)
    | false ↦ elim ci.channel [
      | none ↦ (w, crashed)
      | some addr ↦ or_refused (add_funds w ci addr amt)
    ]
  ]
  task_for w from to amt (failed not_tracked) = or_refused (create w from to amt)
  task_for w from to amt (failed e) = (w, given (done (refused e)))
  task_for w from to amt crashed = (w, crashed)

  -- `processTask`
  unfoldable pub process_task : W → ℕ → ℕ → ℤ → W × Answer Task
  unfolding task_for outbound_active_by_from_to
  process_task w from to amt = task_for w from to amt (outbound_active_by_from_to env w from to)

  -- `currentAvailableFunds`
  unfoldable pub current_available_funds : W → ℕ → ℤ → Answer (Option AvailableFunds)
  unfolding by_channel_id load_actor_state paych_lanes redeemed_sum available_funds
  current_available_funds w id queued =
      if id == 0
      then given none
      else (by_channel_id env w id >>= λ ci. elim ci.channel [
        | none ↦ given (some (available_funds ci queued (pos 0)))
        | some addr ↦
            (load_actor_state env w addr >>= λ st. paych_lanes env w st addr >>= λ lanes.
            given (some (available_funds ci queued (redeemed_sum lanes))))
      ])
