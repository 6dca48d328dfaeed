-- ===== src/Provider/Chart.antt =====
-- retrieval/provider/fsm.go: the state chart of a retrieval provider, with its actions.
use Prim.Native.String.{String}
use go_hop_exchange.Prelude.{ℕ, not, Option, some, List, [], ◌∷◌, ℤ, ◌+ℤ◌, if◌then◌else◌}
use mathlib.Core.Option
use go_hop_exchange.Deal.Status.{
  Status, new, ongoing, blocks_complete, funds_needed, funds_needed_last_payment, failing,
  finalizing, completing, completed, cancelling, cancelled, errored, same_status,
}
use go_hop_exchange.Deal.Params.{Proposal, next_interval}
use go_hop_exchange.Fsm.{Rule, ◌⇒◌, any⇒, stays, records, Outcome, Engine}

pub record ProviderState : Type 0 where
  pub proposal : Proposal
  pub open proposal use *
  pub store_id : ℕ
  pub channel_id : ℕ
  pub piece_info : Option ℕ
  pub status : Status
  pub receiver : ℕ
  pub total_sent : ℕ
  pub funds_received : ℤ
  pub message : String
  pub current_interval : ℕ
  pub pay_ch : Option ℕ

pub data Event : Type 0 where
  open_deal deal_not_found deal_rejected deal_accepted : Event
  block_sent : ℕ → Event
  blocks_completed : Event
  payment_requested : ℕ → Event
  save_voucher_failed : String → Event
  partial_payment_received payment_received : ℤ → ℕ → Event
  complete unseal_error unseal_complete : Event
  data_transfer_error : String → Event
  cancel_complete cleanup_complete : Event
  multi_store_error : String → Event
  client_cancelled : Event

-- `FSMEvents`, without the actions; an event that the chart does not name has no rule.
unfoldable pub rules : Event → List Rule
rules open_deal = stays new ∷ []
rules deal_accepted = (new ⇒ ongoing) ∷ []
rules (block_sent _) = stays ongoing ∷ []
rules blocks_completed = (ongoing ⇒ blocks_complete) ∷ []
rules (payment_requested _) =
    (ongoing ⇒ funds_needed)
    ∷ records funds_needed
    ∷ (blocks_complete ⇒ funds_needed_last_payment)
    ∷ []
rules (save_voucher_failed _) =
    (funds_needed ⇒ failing) ∷ (funds_needed_last_payment ⇒ failing) ∷ []
rules (partial_payment_received _ _) = stays funds_needed ∷ stays funds_needed_last_payment ∷ []
rules (payment_received _ _) =
    (funds_needed ⇒ ongoing)
    ∷ (funds_needed_last_payment ⇒ finalizing)
    ∷ records blocks_complete
    ∷ records ongoing
    ∷ records finalizing
    ∷ []
rules complete = (blocks_complete ⇒ completing) ∷ (finalizing ⇒ completing) ∷ []
rules cleanup_complete = (completing ⇒ completed) ∷ []
rules cancel_complete = (cancelling ⇒ cancelled) ∷ (failing ⇒ errored) ∷ []
rules (data_transfer_error _) = any⇒ errored ∷ []
rules (multi_store_error _) = any⇒ errored ∷ []
rules client_cancelled = records failing ∷ records cancelling ∷ any⇒ cancelling ∷ []
rules _ = []

-- `recordError`
abbrev record_error : ProviderState → String → ProviderState
record_error ds err = record ds { message = err }

-- The actions of `FSMEvents`; `none` is a `NextInterval` that has not ended on its fuel.
unfoldable pub action : Event → ProviderState → Option ProviderState
action (block_sent total_sent) ds = some (record ds { total_sent = total_sent })
action (payment_requested total_sent) ds = some (record ds { total_sent = total_sent })
action (save_voucher_failed err) ds = some (record_error ds err)
action (partial_payment_received funds ch) ds =
    some (record ds { funds_received = ds.funds_received +ℤ funds; pay_ch = some ch })
action (payment_received funds ch) ds =
    Option.map
      (λ next. record ds {
        funds_received = ds.funds_received +ℤ funds;
        current_interval = next;
        pay_ch = some ch;
      })
      (next_interval ds.params ds.current_interval)
action (data_transfer_error err) ds = some (record_error ds err)
action (multi_store_error err) ds = some (record_error ds err)
action client_cancelled ds = some (
    if not (same_status ds.status failing)
    then record ds { message = "Client cancelled retrieval" }
    else ds)
action _ ds = some ds

abbrev pub set_status : Status → ProviderState → ProviderState
set_status x ds = record ds { status = x }

-- What the state-machine group does with an event sent to a deal.
unfoldable pub trigger : Engine → Event → ProviderState → Outcome ProviderState
trigger engine e ds = engine.fire ProviderState (rules e) (λ s. s.status) set_status (action e) ds

-- `FinalityStates`
unfoldable pub finality_states : List Status
finality_states = errored ∷ completed ∷ cancelled ∷ []
