-- ===== src/Exchange/Draining.antt =====
-- What `pumpIndexes` of exchange/replication.go does once a fetch has ended with nothing queued.
use Prim.Native.String.{String}
use mathlib.Core.List.{append_assoc, append-nil}
use go_hop_exchange.Prelude.{ℕ, ◌≡◌, refl, ap, sym, ◌∙◌, Option, none, some, List, [], ◌∷◌, ◌++◌}
use go_hop_exchange.Exchange.Peers.{HeyEvt}
use go_hop_exchange.Exchange.Replication.{
  Announced, fetching, drained, loaded, Pump, hey, fetched, Starts, quiet, is_unused, on_root,
  on_fetched, pump_round,
}
use go_hop_exchange.Exchange.Pumping.{announced}

-- The rounds for a list of events.
abbrev pub pump_all : List HeyEvt → Pump → Pump × List Announced
pump_all [] p = (p, [])
pump_all (e ∷ es) p =
    let r = pump_round (hey e) p in let rest = pump_all es r.0 in (rest.0, r.1.fetches ++ rest.1)

abbrev pub all_announced : List HeyEvt → List Announced
all_announced [] = []
all_announced (e ∷ es) = announced e.peer e.index_root ++ all_announced es

hey_drained :
    (e : HeyEvt) (p : Pump)
    → p.fetch_done ≡ drained
    → pump_round (hey e) p ≡ (record p { queue = p.queue ++ announced e.peer e.index_root }, quiet)
unfolding pump_round
hey_drained e p d = by_root e.index_root refl
  where
    by_root :
        (o : Option ℕ)
        → e.index_root ≡ o
        → pump_round (hey e) p
          ≡ (record p { queue = p.queue ++ announced e.peer e.index_root }, quiet)
    by_root none q =
        rw (q, pump_round)
          (ap (λ (l : List Announced). (record p { queue = l }, quiet)) (sym (append-nil p.queue)))
    by_root (some root) q = rw (q, pump_round) (rw (ap is_unused d, on_root) refl)

all_drained :
    (es : List HeyEvt) (p : Pump)
    → p.fetch_done ≡ drained
    → ((pump_all es p).1 ≡ []) × ((pump_all es p).0.queue ≡ p.queue ++ all_announced es)
all_drained [] p d = (refl, sym (append-nil p.queue))
all_drained (e ∷ es) p d =
    let p' : Pump = record p { queue = p.queue ++ announced e.peer e.index_root } in
    let step = hey_drained e p d in
    let (none_fetched, waiting) = all_drained es p' d in
    (
      ap (λ (r : Pump × Starts). r.1.fetches ++ (pump_all es r.0).1) step ∙ none_fetched,
      ap (λ (r : Pump × Starts). (pump_all es r.0).0.queue) step
          ∙ waiting
          ∙ append_assoc p.queue (announced e.peer e.index_root) (all_announced es),
    )

fetched_drained :
    (root : ℕ) (e : Option String) (p : Pump)
    → p.queue ≡ []
    → pump_round (fetched root e) p ≡ (
      record p { queue = []; fetch_done = drained },
      record { fetches = []; loads = loaded root e },
    )
unfolding pump_round on_fetched
fetched_drained root e p empty = ap (λ q. on_fetched root e q p) empty

-- Once a fetch has ended while the queue was empty, no index is fetched any more: the round of its
-- result begins no fetch, nor do those of any events of the bus behind it, and whatever these announce
-- stays in the queue.
pub pump_drained :
    (root : ℕ) (e : Option String) (es : List HeyEvt) (p : Pump)
    → p.fetch_done ≡ fetching root
    → p.queue ≡ []
    → ((pump_round (fetched root e) p).1.fetches ≡ [])
      × ((pump_all es (pump_round (fetched root e) p).0).1 ≡ [])
      × ((pump_all es (pump_round (fetched root e) p).0).0.queue ≡ all_announced es)
pump_drained root e es p runs empty =
    let ends = fetched_drained root e p empty in
    let later = all_drained es (record p { queue = []; fetch_done = drained }) refl in
    (
      ap (λ r. r.1.fetches) ends,
      ap (λ (r : Pump × Starts). (pump_all es r.0).1) ends ∙ later.0,
      ap (λ (r : Pump × Starts). (pump_all es r.0).0.queue) ends ∙ later.1,
    )
