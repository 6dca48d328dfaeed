-- ===== src/Tests/Peers.antt =====
-- exchange/peermgr.go on a node that knows two peers.
use go_hop_exchange.Prelude.{
  ℕ, ◌≤◌, ◌≡◌, refl, ◌&&◌, none, some, List, [], ◌∷◌, ◌==◌, if◌then◌else◌, All, length, pos,
}
use go_hop_exchange.Exchange.Regions.{asia, europe}
use go_hop_exchange.Exchange.Peers.{
  Hey, Peer, PeerMgr, Host, lookup, greeted, handle_hey, peers_for,
}
use go_hop_exchange.Exchange.Greeting.{shares, handle_hey-lookup}
use go_hop_exchange.Exchange.Selection.{IsDistinct, IsChosen, peers_for-IsChosen}

abbrev peer : List ℕ → Peer
peer rcs = record { regions = rcs; latency = pos 0 }

abbrev pub manager : PeerMgr
manager = record {
  regions = (1, asia) ∷ (5, europe) ∷ [];
  index_root = none;
  peers = (11, peer (1 ∷ 5 ∷ [])) ∷ (12, peer (5 ∷ [])) ∷ [];
}

distinct : All (λ e. IsDistinct e.1.regions) manager.peers
distinct = (((refl, tt), (tt, tt)), ((tt, tt), tt))

peers_for-IsChosen_example :
    All
      (IsChosen (europe ∷ []) (λ p. p == 11) manager.peers)
      (peers_for 1 (europe ∷ []) (λ p. p == 11) manager)
    × (length (peers_for 1 (europe ∷ []) (λ p. p == 11) manager) ≤ 1)
peers_for-IsChosen_example = peers_for-IsChosen 1 (europe ∷ []) (λ p. p == 11) manager distinct

-- A host that keeps nothing.
abbrev host : Host (Unit {0})
host = record { emit = λ w e. w; tag_peer = λ w p tag weight. w }

abbrev hey : Hey
hey = record { regions = 5 ∷ []; index_root = some 3 }

handle_hey-lookup_example : lookup 13 (handle_hey host 13 hey tt manager).1.peers ≡ (
    if (13 == 13) && shares (5 ∷ []) manager.regions
    then some (greeted hey)
    else lookup 13 manager.peers)
handle_hey-lookup_example = handle_hey-lookup host 13 13 hey tt manager
