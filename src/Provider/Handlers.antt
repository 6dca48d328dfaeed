-- ===== src/Provider/Handlers.antt =====
-- retrieval/provider/fsm.go and dtsubscriber.go: the entry functions of a provider's statuses, and
-- the events that a data transfer gives rise to. A handler gives the event that it triggers.
use Prim.Native.String.{String, ◌++◌ as ◌<>◌}
use go_hop_exchange.Prelude.{
  ℕ, Bool, true, false, Option, none, some, List, [], ◌∷◌, ◌==◌, if◌then◌else◌,
}
use go_hop_exchange.Deal.Status.{Status, failing, cancelling, completing}
use go_hop_exchange.Provider.Chart.{
  ProviderState, Event, deal_accepted, complete, data_transfer_error, multi_store_error,
  cancel_complete, cleanup_complete, client_cancelled,
}
use go_hop_exchange.Provider.Revalidator.{Identifier}
use go_hop_exchange.Provider.Validation.{RequestVoucher, proposal_voucher, other_voucher}

-- The error of closing a transfer; one that is terminated already is none.
pub data CloseError : Type 0 where
  terminated : CloseError
  failure : String → CloseError

-- `DealEnvironment`
pub record DealEnvironment (W : Type 0) : Type 0 where
  pub untrack_transfer : W → ProviderState → W × Option String
  pub delete_store : W → ℕ → W × Option String
  pub close_data_transfer : W → ℕ → W × Option CloseError

module _ {W : Type 0} (env : DealEnvironment W) where
  abbrev pub on_close : Option CloseError → Event
  on_close none = cancel_complete
  on_close (some terminated) = cancel_complete
  on_close (some (failure e)) = data_transfer_error e

  -- `CancelDeal`
  unfoldable pub cancel_deal : W → ProviderState → W × Event
  cancel_deal w ds =
      let (w, e) = env.untrack_transfer w ds in
      elim e [
        | some e ↦ (w, data_transfer_error e)
        | none ↦
            let (w, e) = env.delete_store w ds.store_id in
            elim e [
              | some e ↦ (w, multi_store_error e)
              | none ↦ let (w, e) = env.close_data_transfer w ds.channel_id in (w, on_close e)
            ]
      ]

  -- `CleanupDeal`
  unfoldable pub cleanup_deal : W → ProviderState → W × Event
  cleanup_deal w ds =
      let (w, e) = env.untrack_transfer w ds in
      (w, elim e [ some e ↦ data_transfer_error e | none ↦ cleanup_complete ])

  -- `StateEntryFuncs`; a status without a handler triggers nothing.
  unfoldable pub handle : W → Status → ProviderState → Option (W × Event)
  unfolding cancel_deal cleanup_deal
  handle w failing ds = some (cancel_deal w ds)
  handle w cancelling ds = some (cancel_deal w ds)
  handle w completing ds = some (cleanup_deal w ds)
  handle w _ ds = none

-- Events of a data transfer.
pub data TransferEvent : Type 0 where
  accept disconnected cancel other : TransferEvent
  error : String → TransferEvent

-- The state of a data transfer's channel.
pub record ChannelState : Type 0 where
  pub voucher : RequestVoucher
  pub sender : ℕ
  pub recipient : ℕ
  pub is_completed : Bool

-- `eventFromDataTransfer`
unfoldable pub event_from_data_transfer : TransferEvent → Option Event
event_from_data_transfer accept = some deal_accepted
event_from_data_transfer disconnected =
    some (data_transfer_error "deal data transfer stalled (peer hungup)")
event_from_data_transfer (error m) = some (data_transfer_error ("deal data transfer failed: " <> m))
event_from_data_transfer cancel = some client_cancelled
event_from_data_transfer other = none

abbrev pub to_list : Option Event → List Event
to_list none = []
to_list (some e) = e ∷ []

-- The events of `DataTransferSubscriber` for a proposal of this host's.
abbrev pub deal_events : TransferEvent → Bool → List Event
deal_events e true = complete ∷ to_list (event_from_data_transfer e)
deal_events e false = to_list (event_from_data_transfer e)

-- `DataTransferSubscriber`: the deal that is meant, and the events that are sent to it; the errors of
-- sending are logged only.
unfoldable pub data_transfer_subscriber :
    ℕ → TransferEvent → ChannelState → Option (Identifier × List Event)
unfolding event_from_data_transfer
data_transfer_subscriber host e ch = elim ch.voucher [
  | other_voucher ↦ none
  | proposal_voucher p ↦
      if ch.sender == host
      then some (record { receiver = ch.recipient; deal_id = p.id }, deal_events e ch.is_completed)
      else none
]
