-- ===== src/Payments/Queue.antt =====
-- payments/channel.go: `processQueue` and the end of a message that was waited for.
use Prim.Native.String.{String, ◌++◌ as ◌<>◌}
use go_hop_exchange.Prelude.{
  ℕ, Option, none, some, List, [], ◌∷◌, ◌==◌, if◌then◌else◌, ℤ, pos, is_zero, ok, err,
}
use go_hop_exchange.Payments.Types.{Answer, given, failed, crashed}
use go_hop_exchange.Payments.Env.{Env}
use go_hop_exchange.Payments.Store.{save_message_result, remove_channel}
use go_hop_exchange.Payments.Pending.{on_created, on_add_failed, on_added}
use go_hop_exchange.Payments.Requests.{FundsReq, FundsRes, filter_queue, merged_sum, deliver}
use go_hop_exchange.Payments.Funds.{
  Waiting, for_create, for_funds, Task, waits, done, started, AvailableFunds, mutate_channel_info,
  process_task, current_available_funds,
}

-- What a run of the queue leaves and gives: the queue, the results that are delivered, the go-routine
-- that was started, and the funds that it reports.
pub record Processed (W : Type 0) : Type 0 where
  pub world : W
  pub queue : List FundsReq
  pub delivered : List (ℕ × FundsRes)
  pub waiting : Option Waiting
  pub funds : Answer (Option AvailableFunds)

module _ {W : Type 0} (env : Env W) where
  -- A run that leaves the requests in the queue.
  abbrev pub keeps : W → List FundsReq → ℕ → ℤ → Processed W
  keeps w queue id amt = record {
    world = w;
    queue = queue;
    delivered = [];
    waiting = none;
    funds = current_available_funds env w id amt;
  }

  -- A run that ends them all.
  abbrev pub ends : W → List FundsReq → ℕ → FundsRes → Option Waiting → Processed W
  ends w queue id res waiting = record {
    world = w;
    queue = [];
    delivered = deliver res queue;
    waiting = waiting;
    funds = current_available_funds env w id (pos 0);
  }

  -- What `processQueue` makes of a task; `none` is a panic.
  unfoldable pub finish : List FundsReq → ℕ → ℤ → W × Answer Task → Option (Processed W)
  unfolding current_available_funds deliver
  finish queue id amt (w, given waits) = some (keeps w queue id amt)
  finish queue id amt (w, given (done res)) = some (ends w queue id res none)
  finish queue id amt (w, given (started res wait)) = some (ends w queue id res (some wait))
  finish queue id amt (w, failed _) = none
  finish queue id amt (w, crashed) = none

  -- `processQueue` behind `filterQueue`, for the channel between two addresses.
  unfoldable pub process_active : W → ℕ → ℕ → List FundsReq → ℕ → Option (Processed W)
  unfolding merged_sum process_task finish current_available_funds
  process_active w from to [] id = some (keeps w [] id (pos 0))
  process_active w from to (r ∷ rs) id =
      let amt = merged_sum (pos 0) (r ∷ rs) in
      if is_zero amt
      then some (keeps w (r ∷ rs) id amt)
      else finish (r ∷ rs) id amt (process_task env w from to amt)

  -- `processQueue`
  unfoldable pub process_queue : W → ℕ → ℕ → List FundsReq → ℕ → Option (Processed W)
  unfolding filter_queue process_active
  process_queue w from to queue id = process_active w from to (filter_queue queue) id

  -- `waitPaychCreateMsg`, with the text of its error.
  unfoldable pub wait_paych_create : W → ℕ → ℕ → W × Option String
  unfolding mutate_channel_info on_created
  wait_paych_create w id mcid =
      let (w', r) = env.wait_msg w mcid in
      elim r [
        | err e ↦ (w', some e)
        | ok receipt ↦
            if receipt.exit_code == 0
            then (elim receipt.robust_address [
              | err e ↦ (w', some e)
              | ok addr ↦ (mutate_channel_info env w' id (on_created addr), none)
            ])
            else (
              (remove_channel env w' id).0,
              some (
                  "payment channel creation failed (exit code "
                  <> env.show receipt.exit_code
                  <> ")"),
            )
      ]

  -- `waitAddFundsMsg`
  unfoldable pub wait_add_funds : W → ℕ → ℕ → W × Option String
  unfolding mutate_channel_info on_add_failed on_added
  wait_add_funds w id mcid =
      let (w', r) = env.wait_msg w mcid in
      elim r [
        | err e ↦ (w', some e)
        | ok receipt ↦
            if receipt.exit_code == 0 then (mutate_channel_info env w' id on_added, none) else (
              mutate_channel_info env w' id on_add_failed,
              some (
                  "voucher channel creation failed: adding funds (exit code "
                  <> env.show receipt.exit_code
                  <> ")"),
            )
      ]

  -- The wait of `waitForPaychCreateMsg` and of `waitForAddFundsMsg`.
  unfoldable pub wait_for : W → Waiting → W × Option String
  unfolding wait_paych_create wait_add_funds
  wait_for w (for_create id mcid) = wait_paych_create w id mcid
  wait_for w (for_funds id mcid) = wait_add_funds w id mcid

  abbrev pub message_of : Waiting → ℕ
  message_of (for_create id mcid) = mcid
  message_of (for_funds id mcid) = mcid

  -- `msgWaitComplete`, behind the wait, with the run of the queue that it starts where the queue is
  -- not empty; the listeners of `fireMsgComplete` read the same result.
  unfoldable pub msg_wait_complete : W → ℕ → ℕ → List FundsReq → Waiting → Option (Processed W)
  unfolding wait_for save_message_result process_queue
  msg_wait_complete w from to queue wait =
      let (w', failure) = wait_for w wait in
      let w'' = (save_message_result env w' (message_of wait) failure).0 in
      elim queue [
        | [] ↦ some (keeps w'' [] 0 (pos 0))
        | r ∷ rs ↦ process_queue w'' from to (r ∷ rs) 0
      ]
