-- ===== src/Exchange/Replication.antt =====
-- exchange/replication.go: the requests between caches, the peers that may pull content, and the
-- indexes of other nodes that are fetched.
use Prim.Native.String.{String, ◌++◌ as ◌<>◌}
use go_hop_exchange.Prelude.{
  ℕ, ◌+◌, ◌-◌, Bool, true, false, ◌||◌, ◌&&◌, Option, none, some, List, [], ◌∷◌, ◌++◌, ◌==◌,
  if◌then◌else◌, ltb, Result, ok, err,
}
use go_hop_exchange.Index.Buckets.{contains, insert}
use go_hop_exchange.Exchange.Regions.{Region}
use go_hop_exchange.Exchange.Peers.{HeyEvt, PeerMgr, lookup, assign, delete, peers_for}

-- `Method`
pub data Method : Type 0 where
  dispatch fetch_index other_method : Method

pub record Request : Type 0 where
  pub method : Method
  pub payload_cid : ℕ
  pub size : ℕ

-- A voucher of a data transfer: a request, or one of another type.
pub data PullVoucher : Type 0 where
  a_request : Request → PullVoucher
  another : PullVoucher

-- `pulls`: the peers that may pull a content.
abbrev pub Pulls : Type 0
Pulls = List (ℕ × List ℕ)

-- `AuthorizePull`
unfoldable pub authorize_pull : ℕ → ℕ → Pulls → Pulls
unfolding lookup assign insert
authorize_pull k p pulls = elim (lookup k pulls) [
  | some set ↦ assign k (insert p set) pulls
  | none ↦ assign k (p ∷ []) pulls
]

-- `ValidatePush`
abbrev pub validate_push : PullVoucher → Result (Unit {0})
validate_push voucher = err "no pushed accepted"

abbrev pub is_fetch_index : Method → Bool
is_fetch_index fetch_index = true
is_fetch_index dispatch = false
is_fetch_index other_method = false

abbrev pub is_dispatch : Method → Bool
is_dispatch dispatch = true
is_dispatch fetch_index = false
is_dispatch other_method = false

-- The end of `ValidatePull`, for content that is pulled.
unfoldable pub may_pull : Pulls → ℕ → ℕ → Result (Unit {0})
unfolding lookup contains
may_pull pulls receiver base = elim (lookup base pulls) [
  | none ↦ err "unknown CID"
  | some set ↦ if contains receiver set then ok tt else err "not authorized"
]

-- `ValidatePull`
unfoldable pub validate_pull : Pulls → ℕ → PullVoucher → ℕ → Result (Unit {0})
unfolding may_pull
validate_pull pulls receiver another base = err "bad voucher"
validate_pull pulls receiver (a_request r) base =
    if is_fetch_index r.method then ok tt else may_pull pulls receiver base

-- `stores`, the store of a root, by its id; `load` is `Get` of the multistore.
unfoldable pub add_store : (ℕ → Result ℕ) → ℕ → ℕ → List (ℕ × ℕ) → Result (List (ℕ × ℕ))
unfolding assign
add_store load k sid stores = elim (load sid) [
  | err e ↦ err e
  | ok store ↦ ok (assign k store stores)
]

-- `GetStore` and `RmStore`
abbrev pub get_store : ℕ → List (ℕ × ℕ) → Option ℕ
get_store k stores = lookup k stores

abbrev pub rm_store : ℕ → List (ℕ × ℕ) → List (ℕ × ℕ)
rm_store k stores = delete k stores

-- What `TransportConfigurer` makes a transfer use: the store of the root, that of the index, or what
-- the transport has.
pub data Configured : Type 0 where
  use_store : Option ℕ → Configured
  use_index : Configured
  untouched : Configured

-- `TransportConfigurer`, for a transport that can be configured.
unfoldable pub transport_configurer : ℕ → List (ℕ × ℕ) → ℕ → PullVoucher → Configured
transport_configurer pid stores initiator another = untouched
transport_configurer pid stores initiator (a_request r) =
    if is_fetch_index r.method && initiator == pid || is_dispatch r.method
    then use_store (get_store r.payload_cid stores)
    else if is_fetch_index r.method
    then use_index
    else untouched

-- `fetchDone` of `pumpIndexes`: nil, or a channel whose result is to come, or was received.
pub data Fetch : Type 0 where
  unused : Fetch
  fetching : ℕ → Fetch
  drained : Fetch

-- A peer with the root that it announced; only such events get into the queue.
abbrev pub Announced : Type 0
Announced = ℕ × ℕ

pub record Pump : Type 0 where
  pub queue : List Announced
  pub fetch_done : Fetch

-- A round of the loop of `pumpIndexes`: an event of the bus, or the result of a fetch.
pub data Arrival : Type 0 where
  hey : HeyEvt → Arrival
  fetched : ℕ → Option String → Arrival

-- What a round starts: the fetch of a root from a peer, and the loading of one that was fetched.
pub record Starts : Type 0 where
  pub fetches : List Announced
  pub loads : List ℕ

abbrev pub quiet : Starts
quiet = record { fetches = []; loads = [] }

abbrev pub is_unused : Fetch → Bool
is_unused unused = true
is_unused (fetching _) = false
is_unused drained = false

-- `case evt := <-sub.Out()`, for an event with a root.
unfoldable pub on_root : ℕ → ℕ → Pump → Pump × Starts
on_root peer root p =
    if is_unused p.fetch_done
    then (
      record p { fetch_done = fetching root },
      record { fetches = (peer, root) ∷ []; loads = [] },
    )
    else (record p { queue = p.queue ++ ((peer, root) ∷ []) }, quiet)

-- The roots that a result has loaded.
abbrev pub loaded : ℕ → Option String → List ℕ
loaded root none = root ∷ []
loaded root (some _) = []

-- `case res := <-fetchDone`
unfoldable pub on_fetched : ℕ → Option String → List Announced → Pump → Pump × Starts
on_fetched root e [] p =
    (record p { queue = []; fetch_done = drained }, record { fetches = []; loads = loaded root e })
on_fetched root e ((peer, next) ∷ q) p = (
  record p { queue = q; fetch_done = fetching next },
  record { fetches = (peer, next) ∷ []; loads = loaded root e },
)

unfoldable pub pump_round : Arrival → Pump → Pump × Starts
unfolding on_root on_fetched
pump_round (hey evt) p = elim evt.index_root [
  | none ↦ (p, quiet)
  | some root ↦ on_root evt.peer root p
]
pump_round (fetched root e) p = on_fetched root e p.queue p

-- The status of a transfer's channel, and the polling loop of `fetchIndex` over what the channel says
-- one call after the other; `none` is a loop that goes on.
pub data TransferStatus : Type 0 where
  failed_transfer : String → TransferStatus
  cancelled_transfer : String → TransferStatus
  completed_transfer : TransferStatus
  going_on : TransferStatus

unfoldable pub poll : List (Result TransferStatus) → Option (Result (Unit {0}))
poll [] = none
poll (err e ∷ rest) = some (err e)
poll (ok (failed_transfer m) ∷ rest) = some (err ("data transfer failed: " <> m))
poll (ok (cancelled_transfer m) ∷ rest) = some (err ("data transfer cancelled: " <> m))
poll (ok completed_transfer ∷ rest) = some (ok tt)
poll (ok going_on ∷ rest) = poll rest

-- `fetchIndex`: `load` opens the new store, `open` the transfer, whose channel then says `states`.
unfoldable pub fetch_index_of :
    (ℕ → Result ℕ)
    → ℕ
    → (HeyEvt → Result (List (Result TransferStatus)))
    → HeyEvt
    → ℕ
    → List (ℕ × ℕ)
    → List (ℕ × ℕ) × Option (Result (Unit {0}))
unfolding add_store poll
fetch_index_of load next open_channel evt root stores = elim (add_store load root next stores) [
  | err e ↦ (stores, some (err e))
  | ok stores' ↦
      (stores', elim (open_channel evt) [ err e ↦ some (err e) | ok states ↦ poll states ])
]

-- `Dispatch`: what its go-routine keeps from one attempt to the next.
pub record Dispatching : Type 0 where
  pub received : ℕ
  pub attempts : ℕ
  pub sent : List ℕ
  pub pulls : Pulls

-- `AuthorizePull` and `rcv[p] = true` for each of the providers.
unfoldable pub authorize_all : ℕ → List ℕ → Dispatching → Dispatching
unfolding authorize_pull
authorize_all root [] d = d
authorize_all root (p ∷ ps) d =
    authorize_all root ps (record d { sent = p ∷ d.sent; pulls = authorize_pull root p d.pulls })

-- An attempt: the providers that the request is sent to, for a replication factor. The map of the
-- peers may have changed since the last one.
unfoldable pub attempt : ℕ → ℕ → List Region → PeerMgr → Dispatching → Dispatching × List ℕ
unfolding peers_for authorize_all contains
attempt rf root rgs pm d =
    let providers = peers_for (rf - d.received) rgs (λ p. contains p d.sent) pm in
    (authorize_all root providers (record d { attempts = d.attempts + 1 }), providers)

-- A confirmation, which may be the last.
abbrev pub confirmed : Dispatching → Dispatching
confirmed d = record d { received = d.received + 1 }

abbrev pub is_done : ℕ → Dispatching → Bool
is_done rf d = d.received == rf

abbrev pub gives_up : ℕ → Dispatching → Bool
gives_up limit d = ltb limit d.attempts

-- `sendAllRequests`: a peer whose stream does not open is passed over.
unfoldable pub send_all_requests : (ℕ → Bool) → List ℕ → List ℕ
send_all_requests opens [] = []
send_all_requests opens (p ∷ ps) =
    let rest = send_all_requests opens ps in if opens p then p ∷ rest else rest
