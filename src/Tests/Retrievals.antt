-- ===== src/Tests/Retrievals.antt =====
-- retrieval/manager.go on two deals of a client.
use go_hop_exchange.Prelude.{ℕ, ◌≡◌, refl, none, some, List, [], ◌∷◌, ok}
use go_hop_exchange.Deal.Status.{insufficient_funds, same_status}
use go_hop_exchange.Client.Chart.{ClientState}
use go_hop_exchange.Retrieval.Deals.{Machines, try_restart_insufficient_funds}
use go_hop_exchange.Retrieval.Restarting.{stuck, try_restart_insufficient_funds-stuck}
use go_hop_exchange.Tests.Clients.{buying}

abbrev poor : ClientState
poor = record buying { status = insufficient_funds }

abbrev deals : List ClientState
deals = buying ∷ poor ∷ []

-- Machines that keep the ids of the deals that were told something.
abbrev machines : Machines (List ℕ)
machines = record {
  begin = λ w id d. (w, none);
  send = λ w id e. (id ∷ w, none);
  list = λ w. ok deals;
  load_store = λ w sid. none;
}

two_deals : stuck 9 deals ≡ some (3 ∷ [])
unfolding same_status
two_deals = refl

try_restart_insufficient_funds-stuck_example :
    try_restart_insufficient_funds machines [] 9 ≡ some (3 ∷ [], none)
try_restart_insufficient_funds-stuck_example =
    try_restart_insufficient_funds-stuck machines [] 9 deals (3 ∷ []) refl two_deals
