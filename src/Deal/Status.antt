-- ===== src/Deal/Status.antt =====
-- retrieval/deal/status.go: the status of a deal, shared by client and provider.
use Prim.Native.String.{String}
use go_hop_exchange.Prelude.{
  ℕ, zero, suc, ◌≡◌, refl, ap, sym, ◌∙◌, Bool, true, List, [], ◌∷◌, ◌==◌, ==_iff,
}

pub data Status : Type 0 where
  new unsealing unsealed wait_for_acceptance payment_channel_creating : Status
  payment_channel_adding_funds accepted funds_needed_unseal failing rejected : Status
  funds_needed send_funds send_funds_last_payment ongoing funds_needed_last_payment : Status
  completed deal_not_found errored blocks_complete finalizing completing check_complete : Status
  check_funds insufficient_funds payment_channel_allocating_lane cancelling cancelled : Status
  client_waiting_for_last_blocks payment_channel_adding_initial_funds : Status

-- The number that `iota` gives.
unfoldable pub number : Status → ℕ
number new = 0
number unsealing = 1
number unsealed = 2
number wait_for_acceptance = 3
number payment_channel_creating = 4
number payment_channel_adding_funds = 5
number accepted = 6
number funds_needed_unseal = 7
number failing = 8
number rejected = 9
number funds_needed = 10
number send_funds = 11
number send_funds_last_payment = 12
number ongoing = 13
number funds_needed_last_payment = 14
number completed = 15
number deal_not_found = 16
number errored = 17
number blocks_complete = 18
number finalizing = 19
number completing = 20
number check_complete = 21
number check_funds = 22
number insufficient_funds = 23
number payment_channel_allocating_lane = 24
number cancelling = 25
number cancelled = 26
number client_waiting_for_last_blocks = 27
number payment_channel_adding_initial_funds = 28

-- `==` on `Status`, which is a `uint64`.
unfoldable pub same_status : Status → Status → Bool
unfolding number
same_status s t = number s == number t

statuses : List Status
statuses =
    new ∷ unsealing ∷ unsealed ∷ wait_for_acceptance ∷ payment_channel_creating
    ∷ payment_channel_adding_funds ∷ accepted ∷ funds_needed_unseal ∷ failing ∷ rejected
    ∷ funds_needed ∷ send_funds ∷ send_funds_last_payment ∷ ongoing ∷ funds_needed_last_payment
    ∷ completed ∷ deal_not_found ∷ errored ∷ blocks_complete ∷ finalizing ∷ completing
    ∷ check_complete ∷ check_funds ∷ insufficient_funds ∷ payment_channel_allocating_lane
    ∷ cancelling ∷ cancelled ∷ client_waiting_for_last_blocks ∷ payment_channel_adding_initial_funds
    ∷ []

nth : List Status → ℕ → Status
nth [] n = new
nth (s ∷ rest) zero = s
nth (s ∷ rest) (suc n) = nth rest n

nth-number : (s : Status) → nth statuses (number s) ≡ s
unfolding nth statuses number
nth-number new = refl
nth-number _ = refl

pub same_status→eq : (s t : Status) → same_status s t ≡ true → s ≡ t
unfolding same_status
same_status→eq s t h = sym (nth-number s) ∙ ap (nth statuses) ((==_iff _ _).0 h) ∙ nth-number t

-- `Statuses`
unfoldable pub status_name : Status → String
status_name new = "DealStatusNew"
status_name unsealing = "DealStatusUnsealing"
status_name unsealed = "DealStatusUnsealed"
status_name wait_for_acceptance = "DealStatusWaitForAcceptance"
status_name payment_channel_creating = "DealStatusPaymentChannelCreating"
status_name payment_channel_adding_funds = "DealStatusPaymentChannelAddingFunds"
status_name accepted = "DealStatusAccepted"
status_name funds_needed_unseal = "DealStatusFundsNeededUnseal"
status_name failing = "DealStatusFailing"
status_name rejected = "DealStatusRejected"
status_name funds_needed = "DealStatusFundsNeeded"
status_name send_funds = "DealStatusSendFunds"
status_name send_funds_last_payment = "DealStatusSendFundsLastPayment"
status_name ongoing = "DealStatusOngoing"
status_name funds_needed_last_payment = "DealStatusFundsNeededLastPayment"
status_name completed = "DealStatusCompleted"
status_name deal_not_found = "DealStatusDealNotFound"
status_name errored = "DealStatusErrored"
status_name blocks_complete = "DealStatusBlocksComplete"
status_name finalizing = "DealStatusFinalizing"
status_name completing = "DealStatusCompleting"
status_name check_complete = "DealStatusCheckComplete"
status_name check_funds = "DealStatusCheckFunds"
status_name insufficient_funds = "DealStatusInsufficientFunds"
status_name payment_channel_allocating_lane = "DealStatusPaymentChannelAllocatingLane"
status_name cancelling = "DealStatusCancelling"
status_name cancelled = "DealStatusCancelled"
status_name client_waiting_for_last_blocks = "DealStatusWaitingForLastBlocks"
status_name payment_channel_adding_initial_funds = "DealStatusPaymentChannelAddingInitialFunds"
