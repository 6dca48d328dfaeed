-- ===== src/Exchange/Forwarding.antt =====
-- How offers find their way back in a network of the nodes of exchange/routing.go.
use Prim.Native.String.{String}
use package.text.Mathlib.Text.{◌==◌ as ◌=s=◌}
use package.text.Mathlib.TextEquality.{eq_iff}
use go_hop_exchange.Prelude.{
  ℕ, zero, suc, ◌≡◌, refl, ap, sym, ◌∙◌, Bool, true, false, ◌||◌, Option, none, some, List, [], ◌∷◌,
  ◌==◌, ==_iff, ==_self, if◌then◌else◌, Bool-cases, inl, inr, true≢false, none≢some, length, Result,
  ok, err, arith,
}
use go_hop_exchange.Deal.Offer.{Offer}
use go_hop_exchange.Index.Buckets.{contains}
use go_hop_exchange.Exchange.Keyed.{at_key, at_key-with_key}
use go_hop_exchange.Exchange.Routing.{
  GossipTracer, TraceEvent, note_published, note_sender, trace, was_published, sender, Router,
  Handling, receives, forwards, drops, relay,
}

-- A node of the network after a trace event.
abbrev pub traced : ℕ → TraceEvent → (ℕ → GossipTracer) → ℕ → GossipTracer
traced p evt net x = if p == x then trace evt (net x) else net x

abbrev pub published_event : String → TraceEvent
published_event id = record { publish_message = some id; deliver_message = none }

abbrev pub delivered_event : String → ℕ → TraceEvent
delivered_event id p = record { publish_message = none; deliver_message = some (id, p) }

abbrev pub names : Option String → String → Bool
names none id = false
names (some k) id = k =s= id

abbrev pub names_delivered : Option (String × ℕ) → String → Bool
names_delivered none id = false
names_delivered (some (k, p)) id = k =s= id

-- The gossip of one message: its origin publishes it, then nodes that do not have it yet have it
-- delivered from ones that do, the latest first, in between events about other messages.
pub data Gossip (id : String) (o : ℕ) : (ℕ → GossipTracer) → List ℕ → Type 0 where
  publishes :
      (net : ℕ → GossipTracer)
      → ((p : ℕ) → was_published id (net p) ≡ false)
      → Gossip id o (traced o (published_event id) net) (o ∷ [])
  delivers :
      {net : ℕ → GossipTracer} {heard : List ℕ}
      → Gossip id o net heard
      → (p q : ℕ) → contains p heard ≡ true
      → contains q heard ≡ false
      → Gossip id o (traced q (delivered_event id p) net) (q ∷ heard)
  passes :
      {net : ℕ → GossipTracer} {heard : List ℕ}
      → Gossip id o net heard
      → (p : ℕ) (evt : TraceEvent) → names evt.publish_message id ≡ false
      → names_delivered evt.deliver_message id ≡ false
      → Gossip id o (traced p evt net) heard

module _ (reach : ℕ → ℕ → Result ℕ) (decode : ℕ → Result Offer) (receiver : ℕ → Bool) (id : String)
    (bytes : ℕ) where
  -- What becomes of an offer that a node has got, over some hops: the node whose receiver gets it.
  unfoldable pub travel : (ℕ → GossipTracer) → ℕ → ℕ → Option (ℕ × Offer)
  unfolding relay
  travel net zero p = none
  travel net (suc hops) p =
      elim (relay (reach p) decode (record { meta = net p; has_receiver = receiver p }) id bytes) [
        | receives offer ↦ some (p, offer)
        | forwards to b ↦ travel net hops to
        | drops ↦ none
      ]

-- The nodes that have a message know from which earlier one they have it, down to the origin.
abbrev Linked : String → ℕ → (ℕ → GossipTracer) → List ℕ → Type 0
Linked id o net [] = ⊥
Linked id o net (p ∷ []) = (p ≡ o) × (was_published id (net p) ≡ true)
Linked id o net (q ∷ p ∷ rest) =
    (was_published id (net q) ≡ false)
    × ((s : ℕ) × (sender id (net q) ≡ ok s) × (contains s (p ∷ rest) ≡ true))
    × Linked id o net (p ∷ rest)

-- Two networks agree on a message at a node.
abbrev Agrees : String → (ℕ → GossipTracer) → (ℕ → GossipTracer) → ℕ → Type 0
Agrees id net net' p =
    (was_published id (net' p) ≡ was_published id (net p))
    × (sender id (net' p) ≡ sender id (net p))

contains_first : (p : ℕ) (rest : List ℕ) → contains p (p ∷ rest) ≡ true
unfolding contains
contains_first p rest = ground arith

contains_later : (x q : ℕ) (rest : List ℕ) → contains x rest ≡ true → contains x (q ∷ rest) ≡ true
unfolding contains
contains_later x q rest h = ground arith

Linked-Agrees :
    (id : String) (o : ℕ) (net net' : ℕ → GossipTracer) (heard : List ℕ)
    → ((p : ℕ) → contains p heard ≡ true → Agrees id net net' p)
    → Linked id o net heard
    → Linked id o net' heard
unfolding contains
Linked-Agrees id o net net' [] agrees h = absurd h
Linked-Agrees id o net net' (p ∷ []) agrees h = (h.0, (agrees p (contains_first p [])).0 ∙ h.1)
Linked-Agrees id o net net' (q ∷ p ∷ rest) agrees (off, (s, from, there), h) = (
  (agrees q (contains_first q (p ∷ rest))).0 ∙ off,
  (s, (agrees q (contains_first q (p ∷ rest))).1 ∙ from, there),
  Linked-Agrees id o net net' (p ∷ rest) (λ x c. agrees x (contains_later x q (p ∷ rest) c)) h,
)

-- What a tracer says after an event.
abbrev flag : Option Bool → Bool
flag none = false
flag (some b) = b

abbrev told : Option ℕ → Result ℕ
told none = err "no sender found"
told (some p) = ok p

was_published-note :
    (id : String) (m : Option String) (gt : GossipTracer)
    → was_published id (note_published m gt) ≡ (names m id || was_published id gt)
unfolding was_published
was_published-note id none gt = refl
was_published-note id (some k) gt =
    ap flag (at_key-with_key id k true gt.published) ∙ by_key (k =s= id)
  where
    by_key :
        (b : Bool)
        → flag (if b then some true else at_key id gt.published)
          ≡ (b || flag (at_key id gt.published))
    by_key true = refl
    by_key false = refl

was_published-trace :
    (id : String) (evt : TraceEvent) (gt : GossipTracer)
    → was_published id (trace evt gt) ≡ (names evt.publish_message id || was_published id gt)
unfolding trace was_published
was_published-trace id evt gt =
    unsent evt.deliver_message ∙ was_published-note id evt.publish_message gt
  where
    unsent :
        (d : Option (String × ℕ))
        → was_published id (note_sender d (note_published evt.publish_message gt))
          ≡ was_published id (note_published evt.publish_message gt)
    unsent none = refl
    unsent (some (k, p)) = refl

sender-note :
    (id : String) (k : String) (p : ℕ) (gt : GossipTracer)
    → sender id (note_sender (some (k, p)) gt)
      ≡ told (if k =s= id then some p else at_key id gt.senders)
unfolding sender
sender-note id k p gt = ap told (at_key-with_key id k p gt.senders)

sender-note_published :
    (id : String) (m : Option String) (gt : GossipTracer)
    → sender id (note_published m gt) ≡ sender id gt
unfolding sender
sender-note_published id none gt = refl
sender-note_published id (some k) gt = refl

sender-trace :
    (id : String) (evt : TraceEvent) (gt : GossipTracer)
    → names_delivered evt.deliver_message id ≡ false
    → sender id (trace evt gt) ≡ sender id gt
unfolding trace sender
sender-trace id evt gt h =
    unnamed evt.deliver_message h ∙ sender-note_published id evt.publish_message gt
  where
    unnamed :
        (d : Option (String × ℕ))
        → names_delivered d id ≡ false
        → sender id (note_sender d (note_published evt.publish_message gt))
          ≡ sender id (note_published evt.publish_message gt)
    unnamed none e = refl
    unnamed (some (k, p)) e = sender-note id k p (note_published evt.publish_message gt) ∙ rw e refl

sender-trace_delivered :
    (id : String) (p : ℕ) (gt : GossipTracer) → sender id (trace (delivered_event id p) gt) ≡ ok p
unfolding trace
sender-trace_delivered id p gt = sender-note id id p gt ∙ rw ((eq_iff id id).1 refl) refl

-- What holds of the gossip of a message.
record Heard (id : String) (o : ℕ) (net : ℕ → GossipTracer) (heard : List ℕ) : Type 0 where
  linked : Linked id o net heard
  alone : (p : ℕ) → contains p heard ≡ false → was_published id (net p) ≡ false

-- An event at a node leaves the others as they are.
traced_other :
    (p x : ℕ) (evt : TraceEvent) (net : ℕ → GossipTracer)
    → (p == x) ≡ false
    → traced p evt net x ≡ net x
traced_other p x evt net h = rw h refl

traced_same :
    (p x : ℕ) (evt : TraceEvent) (net : ℕ → GossipTracer)
    → (p == x) ≡ true
    → traced p evt net x ≡ trace evt (net x)
traced_same p x evt net h = rw h refl

passes-Agrees :
    (id : String) (net : ℕ → GossipTracer) (p : ℕ) (evt : TraceEvent)
    → names evt.publish_message id ≡ false
    → names_delivered evt.deliver_message id ≡ false
    → (x : ℕ) → Agrees id net (traced p evt net) x
passes-Agrees id net p evt np nd x = elim (Bool-cases (p == x)) [
  | inl same ↦
      let e = traced_same p x evt net same in
      (
        ap (was_published id) e
            ∙ was_published-trace id evt (net x)
            ∙ ap (λ b. b || was_published id (net x)) np,
        ap (sender id) e ∙ sender-trace id evt (net x) nd,
      )
  | inr other ↦
      let e = traced_other p x evt net other in (ap (was_published id) e, ap (sender id) e)
]

contains_apart :
    (p q : ℕ) (heard : List ℕ)
    → contains p heard ≡ true
    → contains q heard ≡ false
    → (q == p) ≡ false
contains_apart p q heard hp hq = elim (Bool-cases (q == p)) [
  | inr other ↦ other
  | inl same ↦
      absurd (true≢false (sym hp ∙ ap (λ x. contains x heard) (sym ((==_iff q p).0 same)) ∙ hq))
]

contains_only : (x q : ℕ) → contains x (q ∷ []) ≡ true → (q == x) ≡ true
unfolding contains
contains_only x q h = ground arith

contains_rest :
    (x q : ℕ) (heard : List ℕ)
    → contains x (q ∷ heard) ≡ true
    → (q == x) ≡ false
    → contains x heard ≡ true
unfolding contains
contains_rest x q heard h other = ground arith

contains_tail :
    (x q : ℕ) (heard : List ℕ)
    → contains x (q ∷ heard) ≡ false
    → ((q == x) ≡ false) × (contains x heard ≡ false)
unfolding contains
contains_tail x q heard h = ground arith

Linked-cons :
    (id : String) (o q s : ℕ) (net : ℕ → GossipTracer) (heard : List ℕ)
    → was_published id (net q) ≡ false
    → sender id (net q) ≡ ok s
    → contains s heard ≡ true
    → Linked id o net heard
    → Linked id o net (q ∷ heard)
Linked-cons id o q s net [] off from there h = absurd h
Linked-cons id o q s net (p ∷ rest) off from there h = (off, (s, from, there), h)

Gossip-Heard :
    {id : String} {o : ℕ} {net : ℕ → GossipTracer} {heard : List ℕ}
    → Gossip id o net heard
    → Heard id o net heard
Gossip-Heard {id} {o} (publishes net silent) =
    let evt = published_event id in
    record {
      linked = (
        refl,
        ap (was_published id) (traced_same o o evt net (==_self o))
            ∙ was_published-trace id evt (net o)
            ∙ ap (λ b. b || was_published id (net o)) ((eq_iff id id).1 refl),
      );
      alone = λ x c.
          ap (was_published id) (traced_other o x evt net (contains_tail x o [] c).0) ∙ silent x;
    }
Gossip-Heard {id} {o} (delivers {net = net} {heard = heard} g p q hp hq) =
    let before = Gossip-Heard g in
    let evt = delivered_event id p in
    let here = traced_same q q evt net (==_self q) in
    let off : was_published id (traced q evt net q) ≡ false =
      ap (was_published id) here ∙ was_published-trace id evt (net q) ∙ before.alone q hq in
    let from : sender id (traced q evt net q) ≡ ok p =
      ap (sender id) here ∙ sender-trace_delivered id p (net q) in
    let agrees : (x : ℕ) → contains x heard ≡ true → Agrees id net (traced q evt net) x = λ x c.
      let e = traced_other q x evt net (contains_apart x q heard c hq) in
      (ap (was_published id) e, ap (sender id) e) in
    record {
      linked =
          Linked-cons id o q p (traced q evt net) heard off from hp
            (Linked-Agrees id o net (traced q evt net) heard agrees before.linked);
      alone = λ x c.
          let (other, absent) = contains_tail x q heard c in
          ap (was_published id) (traced_other q x evt net other) ∙ before.alone x absent;
    }
Gossip-Heard {id} {o} (passes {net = net} {heard = heard} g p evt np nd) =
    let before = Gossip-Heard g in
    let agrees = passes-Agrees id net p evt np nd in
    record {
      linked = Linked-Agrees id o net (traced p evt net) heard (λ x c. agrees x) before.linked;
      alone = λ x c. (agrees x).0 ∙ before.alone x c;
    }

module _ (reach : ℕ → ℕ → Result ℕ) (decode : ℕ → Result Offer) (receiver : ℕ → Bool) (id : String)
    (bytes : ℕ) (net : ℕ → GossipTracer) where
  -- A node of the network, as a router.
  abbrev router : ℕ → Router
  router p = record { meta = net p; has_receiver = receiver p }

  travel_more :
      (hops p : ℕ) (r : ℕ × Offer)
      → travel reach decode receiver id bytes net hops p ≡ some r
      → travel reach decode receiver id bytes net (suc hops) p ≡ some r
  unfolding travel
  travel_more zero p r h = absurd (none≢some h)
  travel_more (suc hops) p r h =
      by_handling (λ to. travel_more hops to r) (relay (reach p) decode (router p) id bytes) refl
    where
      by_handling :
          ((to : ℕ)
            → travel reach decode receiver id bytes net hops to ≡ some r
            → travel reach decode receiver id bytes net (suc hops) to ≡ some r)
          → (a : Handling) → relay (reach p) decode (router p) id bytes ≡ a
          → travel reach decode receiver id bytes net (suc (suc hops)) p ≡ some r
      by_handling more (receives offer) e = rw (e, travel) (rw (e, travel) at h)
      by_handling more (forwards to b) e = rw (e, travel) (more to (rw (e, travel) at h))
      by_handling more drops e = absurd (none≢some (rw (e, travel) at h))

  relay_origin :
      (p : ℕ) (offer : Offer)
      → was_published id (net p) ≡ true
      → receiver p ≡ true
      → decode bytes ≡ ok offer
      → relay (reach p) decode (router p) id bytes ≡ receives offer
  unfolding relay
  relay_origin p offer pub' rec decoded = rw (pub', relay, rec, decoded)

  relay_hop :
      (p to s : ℕ)
      → was_published id (net p) ≡ false
      → sender id (net p) ≡ ok to
      → reach p to ≡ ok s
      → relay (reach p) decode (router p) id bytes ≡ forwards to bytes
  unfolding relay
  relay_hop p to s off from open' = rw (off, relay, from, open')

  travel_end :
      (hops p : ℕ) (offer : Offer)
      → relay (reach p) decode (router p) id bytes ≡ receives offer
      → travel reach decode receiver id bytes net (suc hops) p ≡ some (p, offer)
  unfolding travel
  travel_end hops p offer e = rw (e, travel)

  travel_hop :
      (hops p to : ℕ)
      → relay (reach p) decode (router p) id bytes ≡ forwards to bytes
      → travel reach decode receiver id bytes net (suc hops) p
        ≡ travel reach decode receiver id bytes net hops to
  unfolding travel
  travel_hop hops p to e = rw (e, travel)

  travel-Linked :
      (o : ℕ) (offer : Offer) (heard : List ℕ) (p : ℕ)
      → ((x y : ℕ) → (s : ℕ) × (reach x y ≡ ok s))
      → decode bytes ≡ ok offer
      → receiver o ≡ true
      → Linked id o net heard
      → contains p heard ≡ true
      → travel reach decode receiver id bytes net (length heard) p ≡ some (o, offer)
  travel-Linked o offer [] p opens decoded rec h c = absurd h
  travel-Linked o offer (q ∷ []) p opens decoded rec h c =
      let same : o ≡ p = sym h.0 ∙ (==_iff q p).0 (contains_only p q c) in
      rw (sym same) (
        travel_end 0 o offer
          (relay_origin o offer (ap (λ x. was_published id (net x)) (sym h.0) ∙ h.1) rec decoded))
  travel-Linked o offer (q ∷ p' ∷ rest) p opens decoded rec (off, (s, from, there), h) c =
      elim (Bool-cases (q == p)) [
        | inl same ↦
            let here : q ≡ p = (==_iff q p).0 same in
            let (stream, open') = opens q s in
            rw (sym here) (
              travel_hop (length (p' ∷ rest)) q s (relay_hop q s stream off from open')
              ∙ travel-Linked o offer (p' ∷ rest) s opens decoded rec h there)
        | inr other ↦
            travel_more (length (p' ∷ rest)) p (o, offer)
              (travel-Linked o offer (p' ∷ rest) p opens decoded rec h
                (contains_rest p q (p' ∷ rest) c other))
      ]

-- An offer finds its way back: however a query was gossiped, an offer that answers it and gets to any
-- of the nodes that the query was delivered to is relayed from node to node until it is with the
-- receiver of the node that published the query, within as many hops as there are such nodes, if
-- streams to other nodes open, the origin has a receiver and the bytes of the offer are those of one.
pub travel-Gossip :
    {id : String} {o : ℕ} {net : ℕ → GossipTracer} {heard : List ℕ} (reach : ℕ → ℕ → Result ℕ)
    (decode : ℕ → Result Offer) (receiver : ℕ → Bool) (bytes : ℕ) (offer : Offer)
    → Gossip id o net heard
    → ((x y : ℕ) → (s : ℕ) × (reach x y ≡ ok s))
    → decode bytes ≡ ok offer
    → receiver o ≡ true
    → (p : ℕ) → contains p heard ≡ true
    → travel reach decode receiver id bytes net (length heard) p ≡ some (o, offer)
travel-Gossip {id} {o} {net} {heard} reach decode receiver bytes offer g opens decoded rec p c =
    travel-Linked reach decode receiver id bytes net o offer heard p opens decoded rec
      (Gossip-Heard g).linked c
