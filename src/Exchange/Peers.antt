-- ===== src/Exchange/Peers.antt =====
-- exchange/peermgr.go: the peers that a node knows from their greetings. The map of the peers is a
-- list of entries in the order in which Go goes through it; it has a peer once.
use Prim.Native.String.{String}
use go_hop_exchange.Prelude.{
  ℕ, Bool, true, false, Option, none, some, List, [], ◌∷◌, ◌++◌, ◌==◌, if◌then◌else◌, ℤ, pos, ◌-ℤ◌,
  length, map, Result, ok, err,
}
use go_hop_exchange.Exchange.Regions.{Region}

pub record Hey : Type 0 where
  pub regions : List ℕ
  pub index_root : Option ℕ

-- `HeyEvt`
pub record HeyEvt : Type 0 where
  pub peer : ℕ
  pub index_root : Option ℕ

-- `Peer`; a new one has no latency.
pub record Peer : Type 0 where
  pub regions : List ℕ
  pub latency : ℤ

-- `PeerMgr`, less the host and the emitter of events; the roots of an index are numbers, and `none`
-- is `cid.Undef`.
pub record PeerMgr : Type 0 where
  pub regions : List (ℕ × Region)
  pub index_root : Option ℕ
  pub peers : List (ℕ × Peer)

-- The host of libp2p.
pub record Host (W : Type 0) : Type 0 where
  -- The event bus, whose error is logged only.
  pub emit : W → HeyEvt → W
  pub tag_peer : W → ℕ → String → ℕ → W

-- Look-up, assignment and removal in a map.
unfoldable pub lookup : {A : Type 0} → ℕ → List (ℕ × A) → Option A
lookup k [] = none
lookup k ((j, a) ∷ m) = if j == k then some a else lookup k m

unfoldable pub assign : {A : Type 0} → ℕ → A → List (ℕ × A) → List (ℕ × A)
assign k a [] = (k, a) ∷ []
assign k a ((j, b) ∷ m) = let rest = assign k a m in if j == k then (k, a) ∷ m else (j, b) ∷ rest

unfoldable pub delete : {A : Type 0} → ℕ → List (ℕ × A) → List (ℕ × A)
delete k [] = []
delete k ((j, b) ∷ m) = let rest = delete k m in if j == k then rest else (j, b) ∷ rest

-- The map that `NewPeerMgr` makes of the regions.
unfoldable pub region_map : List (ℕ × Region) → List Region → List (ℕ × Region)
unfolding assign
region_map m [] = m
region_map m (r ∷ rs) = region_map (assign r.code r m) rs

-- `NewPeerMgr`
unfoldable pub new_peer_mgr : Option ℕ → List Region → PeerMgr
unfolding region_map
new_peer_mgr root rs = record { regions = region_map [] rs; index_root = root; peers = [] }

-- `DisconnectedF` of the notifiee that `NewPeerMgr` registers.
unfoldable pub disconnected : ℕ → PeerMgr → PeerMgr
unfolding delete
disconnected p pm = record pm { peers = delete p pm.peers }

-- The innermost loop of `Peers`: a peer is appended for each time that it names the region.
unfoldable pub in_region : ℕ → ℕ → List ℕ → List ℕ
in_region p code [] = []
in_region p code (rc ∷ rcs) =
    let rest = in_region p code rcs in if rc == code then p ∷ rest else rest

-- The loop over the peers, for a region. The flag says that there are enough.
unfoldable pub pick : ℕ → (ℕ → Bool) → ℕ → List (ℕ × Peer) → List ℕ → Bool × List ℕ
unfolding in_region
pick n ignore code [] out = (false, out)
pick n ignore code ((p, v) ∷ ps) out = elim (ignore p) [
  | true ↦ pick n ignore code ps out
  | false ↦
      let out' = out ++ in_region p code v.regions in
      elim (length out' == n) [ true ↦ (true, out') | false ↦ pick n ignore code ps out' ]
]

-- The loop over the regions.
unfoldable pub pick_all : ℕ → (ℕ → Bool) → List (ℕ × Peer) → List Region → List ℕ → List ℕ
unfolding pick
pick_all n ignore ps [] out = out
pick_all n ignore ps (r ∷ rs) out =
    let (enough, out') = pick n ignore r.code ps out in
    elim enough [ true ↦ out' | false ↦ pick_all n ignore ps rs out' ]

-- `Peers`, for a number that is not negative.
unfoldable pub peers_for : ℕ → List Region → (ℕ → Bool) → PeerMgr → List ℕ
unfolding pick_all
peers_for n rl ignore pm = if n == 0 then [] else pick_all n ignore pm.peers rl []

-- What a greeting says of the peer.
abbrev pub greeted : Hey → Peer
greeted h = record { regions = h.regions; latency = pos 0 }

-- The loop of `handleHey` over the regions of the greeting.
unfoldable pub greet_each : {W : Type 0} → Host W → ℕ → Hey → List ℕ → W → PeerMgr → W × PeerMgr
unfolding lookup assign
greet_each host p h [] w pm = (w, pm)
greet_each host p h (r ∷ rs) w pm = elim (lookup r pm.regions) [
  | none ↦ greet_each host p h rs w pm
  | some reg ↦
      greet_each host p h rs
        (host.tag_peer (host.emit w (record { peer = p; index_root = h.index_root })) p reg.name 10)
        (record pm { peers = assign p (greeted h) pm.peers })
]

-- `handleHey`
unfoldable pub handle_hey : {W : Type 0} → Host W → ℕ → Hey → W → PeerMgr → W × PeerMgr
unfolding greet_each
handle_hey host p h w pm = greet_each host p h h.regions w pm

-- `getHey`
unfoldable pub get_hey : PeerMgr → Hey
get_hey pm = record { regions = map (λ e. e.1.code) pm.regions; index_root = pm.index_root }

-- `recordLatency`
unfoldable pub record_latency : ℕ → ℤ → ℤ → PeerMgr → Result PeerMgr
unfolding lookup assign
record_latency p now start pm = elim (lookup p pm.peers) [
  | none ↦ err "no peer given ID"
  | some peer ↦
      ok (record pm { peers = assign p (record peer { latency = now -ℤ start }) pm.peers })
]
