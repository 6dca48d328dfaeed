-- ===== src/Client/Chart.antt =====
-- retrieval/client/fsm.go and events.go: the state chart of a retrieval client; the client's state of
-- retrieval/deal/types.go. An event carries the arguments that the trigger hands to its action.
use Prim.Native.String.{String}
use go_hop_exchange.Prelude.{ℕ, Bool, Option, List, [], ◌∷◌, ◌++◌, map, ℤ}
use go_hop_exchange.Deal.Status.{
  Status, new, wait_for_acceptance, payment_channel_creating, payment_channel_adding_funds,
  accepted, failing, rejected, funds_needed, send_funds, send_funds_last_payment, ongoing,
  funds_needed_last_payment, completed, deal_not_found, errored, blocks_complete, finalizing,
  check_complete, check_funds, insufficient_funds, payment_channel_allocating_lane, cancelling,
  cancelled, client_waiting_for_last_blocks, payment_channel_adding_initial_funds,
}
use go_hop_exchange.Deal.Params.{Proposal}
use go_hop_exchange.Fsm.{Rule, ◌⇒◌, any⇒, stays, records}

pub record PaymentInfo : Type 0 where
  pub pay_ch : ℕ
  pub lane : ℕ

pub record ClientState : Type 0 where
  pub proposal : Proposal
  pub open proposal use *
  pub store_id : Option ℕ
  pub channel_id : ℕ
  pub last_payment_requested : Bool
  pub all_blocks_received : Bool
  pub total_funds : ℤ
  pub client_wallet : ℕ
  pub miner_wallet : ℕ
  pub payment_info : Option PaymentInfo
  pub status : Status
  pub sender : ℕ
  pub total_received : ℕ
  pub message : String
  pub bytes_paid_for : ℕ
  pub current_interval : ℕ
  pub payment_requested : ℤ
  pub funds_spent : ℤ
  pub unseal_funds_paid : ℤ
  pub wait_msg_cid : Option ℕ
  pub voucher_shortfall : ℤ

pub data Event : Type 0 where
  open_deal : Event
  write_deal_proposal_errored : String → Event
  deal_proposed : ℕ → Event
  deal_rejected deal_not_found_event : String → Event
  deal_accepted provider_cancelled : Event
  unknown_response_received : Status → Event
  payment_channel_errored allocate_lane_errored : String → Event
  payment_channel_create_initiated payment_channel_ready : ℕ → Event
  payment_channel_skip : Event
  payment_channel_adding : ℕ → ℕ → Event
  payment_channel_add_funds_errored : Event
  last_payment_requested : ℤ → Event
  all_blocks_received : Event
  payment_requested : ℤ → Event
  payment_not_sent : Event
  unseal_payment_requested : ℤ → Event
  blocks_received : ℕ → Event
  sends_funds : Event
  funds_expended : ℤ → Event
  bad_payment_requested create_voucher_failed write_deal_payment_errored : String → Event
  payment_sent : ℤ → Event
  complete : Event
  data_transfer_error : String → Event
  cancel_complete early_termination complete_verified : Event
  lane_allocated : ℕ → Event
  voucher_shortfall : ℤ → Event
  recheck_funds cancel : Event
  provider_errored : String → Event
  wait_for_last_blocks : Event

-- `paymentChannelCreationStates`
unfoldable pub payment_channel_creation_states : List Status
payment_channel_creation_states =
    wait_for_acceptance ∷ accepted ∷ payment_channel_creating ∷ payment_channel_allocating_lane
    ∷ payment_channel_adding_initial_funds ∷ []

-- `FromMany(paymentChannelCreationStates...).ToJustRecord()`
abbrev pub recorded_while_creating : List Rule
recorded_while_creating = map records payment_channel_creation_states

-- `FSMEvents`, without the actions: proposal, acceptance and payment channel.
unfoldable pub setup_rules : Event → List Rule
setup_rules open_deal = stays new ∷ []
setup_rules (write_deal_proposal_errored _) = any⇒ errored ∷ []
setup_rules (deal_proposed _) = (new ⇒ wait_for_acceptance) ∷ []
setup_rules (deal_rejected _) = (wait_for_acceptance ⇒ rejected) ∷ []
setup_rules (deal_not_found_event _) = (wait_for_acceptance ⇒ deal_not_found) ∷ []
setup_rules deal_accepted = (wait_for_acceptance ⇒ accepted) ∷ []
setup_rules (unknown_response_received _) = any⇒ failing ∷ []
setup_rules payment_channel_skip = (accepted ⇒ ongoing) ∷ []
setup_rules (payment_channel_errored _) =
    (accepted ⇒ failing)
    ∷ (payment_channel_creating ⇒ failing)
    ∷ (payment_channel_adding_funds ⇒ failing)
    ∷ []
setup_rules (payment_channel_create_initiated _) = (accepted ⇒ payment_channel_creating) ∷ []
setup_rules (payment_channel_adding _ _) =
    (accepted ⇒ payment_channel_adding_initial_funds)
    ∷ (check_funds ⇒ payment_channel_adding_funds)
    ∷ []
setup_rules (payment_channel_ready _) =
    (payment_channel_creating ⇒ payment_channel_allocating_lane)
    ∷ (payment_channel_adding_initial_funds ⇒ payment_channel_allocating_lane)
    ∷ (accepted ⇒ payment_channel_allocating_lane)
    ∷ (payment_channel_adding_funds ⇒ ongoing)
    ∷ (check_funds ⇒ ongoing)
    ∷ []
setup_rules (allocate_lane_errored _) = (payment_channel_allocating_lane ⇒ failing) ∷ []
setup_rules (lane_allocated _) = (payment_channel_allocating_lane ⇒ ongoing) ∷ []
setup_rules (provider_errored _) = any⇒ errored ∷ []
setup_rules (data_transfer_error _) = any⇒ errored ∷ []
setup_rules _ = []

-- The same: payment requests and the data.
unfoldable pub transfer_rules : Event → List Rule
unfolding payment_channel_creation_states
transfer_rules (last_payment_requested _) =
    (ongoing ⇒ funds_needed_last_payment)
    ∷ (funds_needed_last_payment ⇒ funds_needed_last_payment)
    ∷ (funds_needed ⇒ funds_needed_last_payment)
    ∷ (send_funds ⇒ ongoing)
    ∷ stays check_complete
    ∷ (blocks_complete ⇒ send_funds_last_payment)
    ∷ recorded_while_creating
transfer_rules (payment_requested _) =
    (ongoing ⇒ funds_needed)
    ∷ (blocks_complete ⇒ funds_needed)
    ∷ (funds_needed_last_payment ⇒ funds_needed)
    ∷ (funds_needed ⇒ funds_needed)
    ∷ (send_funds ⇒ ongoing)
    ∷ stays check_complete
    ∷ recorded_while_creating
transfer_rules (unseal_payment_requested _) = (wait_for_acceptance ⇒ accepted) ∷ []
transfer_rules all_blocks_received =
    (ongoing ⇒ blocks_complete) ∷ (blocks_complete ⇒ blocks_complete) ∷ recorded_while_creating
    ++ ((send_funds ⇒ ongoing)
        ∷ (send_funds_last_payment ⇒ ongoing)
        ∷ stays funds_needed
        ∷ (funds_needed_last_payment ⇒ send_funds_last_payment)
        ∷ (client_waiting_for_last_blocks ⇒ completed)
        ∷ (check_complete ⇒ completed)
        ∷ [])
transfer_rules (blocks_received _) =
    stays ongoing
    ∷ stays funds_needed
    ∷ stays funds_needed_last_payment
    ∷ stays check_complete
    ∷ stays client_waiting_for_last_blocks
    ∷ (send_funds ⇒ ongoing)
    ∷ (send_funds_last_payment ⇒ ongoing)
    ∷ recorded_while_creating
transfer_rules _ = []

-- The same: sending payments.
unfoldable pub payment_rules : Event → List Rule
payment_rules sends_funds =
    (send_funds ⇒ ongoing)
    ∷ (send_funds_last_payment ⇒ ongoing)
    ∷ (funds_needed ⇒ send_funds)
    ∷ (funds_needed_last_payment ⇒ send_funds_last_payment)
    ∷ []
payment_rules (funds_expended _) = (check_funds ⇒ insufficient_funds) ∷ []
payment_rules (bad_payment_requested _) =
    (send_funds ⇒ failing) ∷ (send_funds_last_payment ⇒ failing) ∷ []
payment_rules (create_voucher_failed _) =
    (send_funds ⇒ failing) ∷ (send_funds_last_payment ⇒ failing) ∷ []
payment_rules (voucher_shortfall _) =
    (send_funds ⇒ check_funds) ∷ (send_funds_last_payment ⇒ check_funds) ∷ []
payment_rules (write_deal_payment_errored _) = any⇒ errored ∷ []
payment_rules payment_not_sent =
    records ongoing ∷ (send_funds ⇒ ongoing) ∷ (send_funds_last_payment ⇒ finalizing) ∷ []
payment_rules (payment_sent _) =
    records ongoing
    ∷ (blocks_complete ⇒ check_complete)
    ∷ stays check_complete
    ∷ (funds_needed ⇒ ongoing)
    ∷ (funds_needed_last_payment ⇒ ongoing)
    ∷ (send_funds ⇒ ongoing)
    ∷ (send_funds_last_payment ⇒ finalizing)
    ∷ []
payment_rules _ = []

-- The same: completing and cancelling.
unfoldable pub closing_rules : Event → List Rule
closing_rules complete =
    (send_funds ⇒ check_complete)
    ∷ (send_funds_last_payment ⇒ check_complete)
    ∷ (funds_needed ⇒ check_complete)
    ∷ (funds_needed_last_payment ⇒ check_complete)
    ∷ (blocks_complete ⇒ check_complete)
    ∷ (ongoing ⇒ check_complete)
    ∷ (finalizing ⇒ completed)
    ∷ []
closing_rules complete_verified = (check_complete ⇒ completed) ∷ []
closing_rules early_termination = (check_complete ⇒ errored) ∷ []
closing_rules wait_for_last_blocks =
    (check_complete ⇒ client_waiting_for_last_blocks) ∷ records completed ∷ []
closing_rules cancel_complete = (failing ⇒ errored) ∷ (cancelling ⇒ cancelled) ∷ []
closing_rules provider_cancelled = records failing ∷ records cancelling ∷ any⇒ cancelling ∷ []
closing_rules cancel = any⇒ cancelling ∷ []
closing_rules recheck_funds = (insufficient_funds ⇒ check_funds) ∷ []
closing_rules _ = []

-- An event has its rules in one of the four parts.
unfoldable pub rules : Event → List Rule
unfolding setup_rules transfer_rules payment_rules closing_rules
rules e = setup_rules e ++ transfer_rules e ++ payment_rules e ++ closing_rules e

-- `FinalityStates`
unfoldable pub finality_states : List Status
finality_states = errored ∷ completed ∷ cancelled ∷ rejected ∷ deal_not_found ∷ []
