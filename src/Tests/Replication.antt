-- ===== src/Tests/Replication.antt =====
-- exchange/replication.go on a node that knows two peers.
use go_hop_exchange.Prelude.{◌+◌, ◌≡◌, refl, false, none, some, List, [], ◌∷◌, ◌++◌, All}
use go_hop_exchange.Index.Buckets.{contains}
use go_hop_exchange.Exchange.Regions.{Region, europe}
use go_hop_exchange.Exchange.Peers.{HeyEvt}
use go_hop_exchange.Exchange.Replication.{
  Request, dispatch, Pulls, Dispatching, attempt, Announced, Pump, fetching, hey, fetched, on_root,
  on_fetched, pump_round,
}
use go_hop_exchange.Exchange.Pulling.{begins, attempts, confirms, MayPull, attempt-MayPull}
use go_hop_exchange.Exchange.Pumping.{roots, running, Pumps, Pumps-order}
use go_hop_exchange.Exchange.Draining.{pump_all, pump_drained}
use go_hop_exchange.Exchange.Pumping
use go_hop_exchange.Tests.Peers.{manager}

abbrev known : Pulls
known = (7, 11 ∷ []) ∷ []

abbrev wanted : Request
wanted = record { method = dispatch; payload_cid = 7; size = 10 }

abbrev at_start : Dispatching
at_start = record { received = 0; attempts = 0; sent = []; pulls = known }

abbrev rgs : List Region
rgs = europe ∷ []

abbrev tried : Dispatching
tried = record (attempt 2 7 rgs manager at_start).0 {
  received = (attempt 2 7 rgs manager at_start).0.received + 1;
}

attempt-MayPull_example :
    All (λ p. contains p tried.sent ≡ false) (attempt 2 7 rgs manager tried).1
    × All (MayPull 7 (attempt 2 7 rgs manager tried).0.pulls) (attempt 2 7 rgs manager tried).1
    × All (MayPull 7 (attempt 2 7 rgs manager tried).0.pulls) (attempt 2 7 rgs manager tried).0.sent
attempt-MayPull_example =
    attempt-MayPull {root = 7} {rf = 2} {rgs = rgs} {d = tried}
      (confirms (attempts (begins known) manager)) manager

abbrev from_eleven : HeyEvt
from_eleven = record { peer = 11; index_root = some 3 }

abbrev from_twelve : HeyEvt
from_twelve = record { peer = 12; index_root = some 4 }

-- The first fetch has ended, and the second runs.
pumped :
    Pumps
      ((11, 3) ∷ (12, 4) ∷ [])
      ((11, 3) ∷ (12, 4) ∷ [])
      (3 ∷ [])
      (record { queue = []; fetch_done = fetching 4 })
unfolding pump_round on_root on_fetched
pumped =
    Pumping.follows
      (Pumping.follows (Pumping.follows Pumping.begins (hey from_eleven) tt) (hey from_twelve) tt)
      (fetched 3 none) refl

Pumps-order_example :
    (◌≡◌ {A = List Announced} ((11, 3) ∷ (12, 4) ∷ []) ((11, 3) ∷ (12, 4) ∷ []))
    × (roots ((11, 3) ∷ (12, 4) ∷ []) ≡ (3 ∷ []) ++ running (fetching 4))
Pumps-order_example = Pumps-order pumped

-- A fetch runs, and no other root was announced.
abbrev lonely : Pump
lonely = record { queue = []; fetch_done = fetching 3 }

pump_drained_example :
    ((pump_round (fetched 3 none) lonely).1.fetches ≡ [])
    × ((pump_all (from_eleven ∷ from_twelve ∷ []) (pump_round (fetched 3 none) lonely).0).1 ≡ [])
    × ((pump_all (from_eleven ∷ from_twelve ∷ []) (pump_round (fetched 3 none) lonely).0).0.queue
        ≡ (11, 3) ∷ (12, 4) ∷ [])
pump_drained_example = pump_drained 3 none (from_eleven ∷ from_twelve ∷ []) lonely refl refl
