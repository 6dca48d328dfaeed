-- ===== src/Tests/Endings.antt =====
-- retrieval/provider/fsm.go: a deal whose store cannot be deleted.
use go_hop_exchange.Prelude.{◌≡◌, refl, inl, none, some}
use go_hop_exchange.Deal.Status.{failing}
use go_hop_exchange.Provider.Chart.{ProviderState, Event}
use go_hop_exchange.Provider.Handlers.{DealEnvironment, handle}
use go_hop_exchange.Provider.Ending.{Finishes, handle-Finishes}
use go_hop_exchange.Tests.Machine.{reference}
use go_hop_exchange.Tests.Providers.{start}

abbrev environment : DealEnvironment (Unit {0})
environment = record {
  untrack_transfer = λ w ds. (w, none);
  delete_store = λ w store_id. (w, some "in use");
  close_data_transfer = λ w channel_id. (w, none);
}

abbrev doomed : ProviderState
doomed = record start { status = failing }

handle-Finishes_example :
    (r : Unit {0} × Event) × (handle environment tt failing doomed ≡ some r)
    × Finishes reference r.1 doomed
handle-Finishes_example = handle-Finishes reference environment tt doomed (inl refl)
