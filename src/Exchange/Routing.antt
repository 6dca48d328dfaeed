-- ===== src/Exchange/Routing.antt =====
-- exchange/routing.go: queries that are gossiped, and the offers that come back. Streams, the
-- encodings and pubsub are arguments; peers and bytes are numbers.
use Prim.Native.String.{String}
use package.text.Mathlib.Text.{◌==◌ as ◌=s=◌}
use go_hop_exchange.Prelude.{
  ℕ, zero, suc, ◌+◌, Bool, true, false, Option, none, some, List, [], ◌∷◌, ◌==◌, if◌then◌else◌,
  Result, ok, err, and_then,
}
use go_hop_exchange.Deal.Offer.{Offer, QueryResponse, as_query_response}
use go_hop_exchange.Exchange.Regions.{Region}
use go_hop_exchange.Exchange.Keyed.{at_key, with_key}
use go_hop_exchange.Exchange.Market.{Query}

-- `MaxStreamOpenAttempts`
abbrev pub max_stream_open_attempts : ℕ
max_stream_open_attempts = 5

-- The loop of `OpenStream`, on fuel: `new_stream n` is what the n-th call of `NewStream` gives, and
-- `attempts` the counter of the backoff, which `Duration` counts up.
unfoldable pub open_loop : (ℕ → Result ℕ) → ℕ → ℕ → Option (Result ℕ)
open_loop new_stream zero attempts = none
open_loop new_stream (suc fuel) attempts =
    let rest = open_loop new_stream fuel (attempts + 1) in
    elim (new_stream attempts) [
      | ok s ↦ some (ok s)
      | err e ↦
          if attempts == max_stream_open_attempts
          then some (err "exhausted 5 attempts but failed to open stream")
          else rest
    ]

-- `OpenStream`
unfoldable pub open_stream : (ℕ → Result ℕ) → Option (Result ℕ)
unfolding open_loop
open_stream new_stream = open_loop new_stream (max_stream_open_attempts + 1) 0

-- `GossipTracer`
pub record GossipTracer : Type 0 where
  pub published : List (String × Bool)
  pub senders : List (String × ℕ)

abbrev pub new_gossip_tracer : GossipTracer
new_gossip_tracer = record { published = []; senders = [] }

-- A trace event: the message that it says was published, and the one that it says was delivered, with
-- the peer that it was received from.
pub record TraceEvent : Type 0 where
  pub publish_message : Option String
  pub deliver_message : Option (String × ℕ)

abbrev pub note_published : Option String → GossipTracer → GossipTracer
note_published none gt = gt
note_published (some mid) gt = record gt { published = with_key mid true gt.published }

abbrev pub note_sender : Option (String × ℕ) → GossipTracer → GossipTracer
note_sender none gt = gt
note_sender (some (mid, p)) gt = record gt { senders = with_key mid p gt.senders }

-- `Trace`
unfoldable pub trace : TraceEvent → GossipTracer → GossipTracer
unfolding with_key
trace evt gt = note_sender evt.deliver_message (note_published evt.publish_message gt)

-- `Published` and `Sender`
unfoldable pub was_published : String → GossipTracer → Bool
unfolding at_key
was_published mid gt = elim (at_key mid gt.published) [ none ↦ false | some b ↦ b ]

unfoldable pub sender : String → GossipTracer → Result ℕ
unfolding at_key
sender mid gt = elim (at_key mid gt.senders) [ none ↦ err "no sender found" | some p ↦ ok p ]

-- The part of `GossipRouting` that a message meets: the tracer, and whether a receiver is set.
pub record Router : Type 0 where
  pub meta : GossipTracer
  pub has_receiver : Bool

-- What becomes of an offer that comes in: it is given to the receiver, its bytes are forwarded to a
-- peer, or it is dropped.
pub data Handling : Type 0 where
  receives : Offer → Handling
  forwards : ℕ → ℕ → Handling
  drops : Handling

-- `handleOffer` behind the identifier; `reach` opens a stream and copies the bytes, and `decode` gives
-- no error for the end of the bytes.
unfoldable pub relay : (ℕ → Result ℕ) → (ℕ → Result Offer) → Router → String → ℕ → Handling
unfolding was_published sender
relay reach decode gr id bytes =
    if was_published id gr.meta
    then if gr.has_receiver
      then (elim (decode bytes) [ err e ↦ drops | ok offer ↦ receives offer ])
      else drops
    else (elim (sender id gr.meta) [
      | err e ↦ drops
      | ok to ↦ elim (reach to) [ err e ↦ drops | ok s ↦ forwards to bytes ]
    ])

-- The reader of `PeekOfferID` over the bytes `B` that are left: the header of a map with its length, a
-- string, and a scan over a value, whose error is not looked at.
pub record Peeker (B : Type 0) : Type 0 where
  pub read_header : B → Result (ℕ × B)
  pub read_string : B → Result (String × B)
  pub scan_for_links : B → B

-- The loop of `PeekOfferID`
unfoldable pub peek_fields : {B : Type 0} → Peeker B → ℕ → B → String → Result String
peek_fields r zero b msg = ok msg
peek_fields r (suc n) b msg = and_then (r.read_string b) (λ f.
    if f.0 =s= "ID"
    then and_then (r.read_string f.1) (λ v. peek_fields r n v.1 v.0)
    else peek_fields r n (r.scan_for_links f.1) msg)

-- `PeekOfferID`
unfoldable pub peek_offer_id : {B : Type 0} → Peeker B → B → Result String
unfolding peek_fields
peek_offer_id r b = and_then (r.read_header b) (λ h. peek_fields r h.0 h.1 "")

-- `handleOffer`, with `peek` for `PeekOfferID` on the bytes of the stream.
unfoldable pub handle_offer :
    (ℕ → Result String) → (ℕ → Result ℕ) → (ℕ → Result Offer) → Router → ℕ → Handling
unfolding relay
handle_offer peek reach decode gr bytes = elim (peek bytes) [
  | err e ↦ drops
  | ok id ↦ relay reach decode gr id bytes
]

-- A message of a subscription.
pub record GossipMessage : Type 0 where
  pub received_from : ℕ
  pub id : String
  pub payload : ℕ

-- What `pump` uses: the node, the decoder of queries, the addresses of the host, and streams of offers.
pub record Streams : Type 0 where
  pub self : ℕ
  pub decode_query : ℕ → Result Query
  pub open_query_stream : ℕ → Result ℕ
  pub addrs : Result (List ℕ)
  pub write_offer : ℕ → Offer → Result (Unit {0})

-- The offer with the identifier of the message and the first address.
abbrev pub addressed : String → ℕ → Offer → Offer
addressed id addr offer = record offer { id = id; peer_addr = addr }

-- The end of a round of `pump`, with the answer: the offer that is written, if one is, and to whom.
unfoldable pub send_offer : Streams → GossipMessage → Offer → Option (ℕ × Offer)
send_offer ss msg offer = elim (ss.open_query_stream msg.received_from) [
  | err e ↦ none
  | ok s ↦ elim ss.addrs [
    | err e ↦ none
    | ok [] ↦ none
    | ok (a ∷ as') ↦
        let o = addressed msg.id a offer in
        elim (ss.write_offer s o) [ err e ↦ none | ok _ ↦ some (msg.received_from, o) ]
  ]
]

-- A round of `pump`, over the state of what answers queries.
unfoldable pub pump_message :
    {W : Type 0}
    → Streams
    → (W → Region → Query → W × Result Offer)
    → Region
    → GossipMessage
    → W
    → W × Option (ℕ × Offer)
unfolding send_offer
pump_message ss answer r msg w =
    if msg.received_from == ss.self then (w, none) else (elim (ss.decode_query msg.payload) [
      | err e ↦ (w, none)
      | ok q ↦
          let (w', offer) = answer w r q in
          (w', elim offer [ err e ↦ none | ok o ↦ send_offer ss msg o ])
    ])

-- The handler of direct queries in `StartProviding`, for the regions of the node; `none` is a panic.
unfoldable pub answer_direct :
    {W : Type 0}
    → (W → Region → Query → W × Result Offer)
    → List Region
    → Result Query
    → W
    → Option (W × Option QueryResponse)
unfolding as_query_response
answer_direct answer rgs (err e) w = some (w, none)
answer_direct answer [] (ok q) w = none
answer_direct answer (r ∷ rgs) (ok q) w =
    let (w', offer) = answer w r q in
    some (w', elim offer [ err e ↦ none | ok o ↦ some (as_query_response o) ])

-- `NewQueryParams` with the query for a root.
unfoldable pub query_for : (ℕ → Result ℕ) → ℕ → Option ℕ → Result Query
query_for encode root none = err "selector required"
query_for encode root (some sel) =
    and_then (encode sel)
      (λ raw. ok (record { payload_cid = root; piece_cid = none; selector = some raw }))

-- The loop of `Query` over the topics: how many were published to, and the error.
unfoldable pub publish_all : (ℕ → ℕ → Option String) → ℕ → List ℕ → ℕ × Option String
publish_all publish bytes [] = (0, none)
publish_all publish bytes (t ∷ ts) =
    let rest = publish_all publish bytes ts in
    elim (publish t bytes) [ some e ↦ (0, some e) | none ↦ (rest.0 + 1, rest.1) ]

-- `Query`
unfoldable pub query :
    (ℕ → Result ℕ)
    → (Query → Result ℕ)
    → (ℕ → ℕ → Option String)
    → List ℕ
    → ℕ
    → Option ℕ
    → ℕ × Option String
unfolding query_for publish_all
query encode marshal publish tops root sel = elim (and_then (query_for encode root sel) marshal) [
  | err e ↦ (0, some e)
  | ok bytes ↦ publish_all publish bytes tops
]

-- The offer that `QueryProvider` makes of a response.
unfoldable pub offer_of : ℕ → ℕ → QueryResponse → Offer
offer_of addr root res = record {
  id = "";
  peer_addr = addr;
  payload_cid = root;
  size = res.size;
  payment_address = res.payment_address;
  min_price_per_byte = res.min_price_per_byte;
  max_payment_interval = res.max_payment_interval;
  max_payment_interval_increase = res.max_payment_interval_increase;
  unseal_price = res.unseal_price;
}

-- `QueryProvider`: `stream` is what `NewQueryStream` gives, `ask` writes the query and reads the
-- response, and `addrs` are the addresses of the provider. A stream that does not open is used all the
-- same, which is a panic, `none`; as is a provider without an address.
unfoldable pub query_provider :
    (ℕ → Result ℕ)
    → Result ℕ
    → (ℕ → Query → Result QueryResponse)
    → Result (List ℕ)
    → ℕ
    → Option ℕ
    → Option (Result Offer)
unfolding query_for offer_of
query_provider encode stream ask addrs root sel = elim (query_for encode root sel) [
  | err e ↦ some (err e)
  | ok q ↦ elim stream [
    | err e ↦ none
    | ok s ↦ elim (ask s q) [
      | err e ↦ some (err e)
      | ok res ↦ elim addrs [
        | err e ↦ some (err e)
        | ok [] ↦ none
        | ok (a ∷ as') ↦ some (ok (offer_of a root res))
      ]
    ]
  ]
]
