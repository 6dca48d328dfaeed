-- ===== src/Tests/Routing.antt =====
-- exchange/routing.go in a network of three nodes.
use go_hop_exchange.Prelude.{
  ℕ, ◌≡◌, refl, true, false, some, [], ◌∷◌, Result, ok, err, ◌==◌, if◌then◌else◌,
}
use go_hop_exchange.Deal.Offer.{Offer, default_ask}
use go_hop_exchange.Index.Buckets.{contains}
use go_hop_exchange.Exchange.Keyed.{at_key}
use go_hop_exchange.Exchange.Routing.{GossipTracer, new_gossip_tracer, was_published, open_stream}
use go_hop_exchange.Exchange.Forwarding.{
  Gossip, publishes, delivers, traced, published_event, delivered_event, travel, travel-Gossip,
}
use go_hop_exchange.Exchange.Streams.{tries, first_stream, open_stream-first}

abbrev silent : ℕ → GossipTracer
silent p = new_gossip_tracer

nothing_published : (p : ℕ) → was_published "m" (silent p) ≡ false
unfolding was_published at_key
nothing_published p = refl

abbrev net : ℕ → GossipTracer
net =
    traced 3 (delivered_event "m" 2)
      (traced 2 (delivered_event "m" 1) (traced 1 (published_event "m") silent))

gossip : Gossip "m" 1 net (3 ∷ 2 ∷ 1 ∷ [])
unfolding contains
gossip = delivers (delivers (publishes silent nothing_published) 1 2 refl refl) 2 3 refl refl

abbrev connected : ℕ → ℕ → Result ℕ
connected p q = ok q

abbrev decode : ℕ → Result Offer
decode b = ok default_ask

three_has_it : contains 3 (3 ∷ 2 ∷ 1 ∷ []) ≡ true
unfolding contains
three_has_it = refl

travel-Gossip_example : travel connected decode (λ p. true) "m" 9 net 3 3 ≡ some (1, default_ask)
travel-Gossip_example =
    travel-Gossip connected decode (λ p. true) 9 default_ask gossip (λ x y. (y, refl)) refl refl 3
      three_has_it

-- A host that is reached at the last call.
abbrev slow : ℕ → Result ℕ
slow n = if n == 5 then ok 8 else err "no route"

open_stream-first_example : open_stream slow ≡ some (first_stream (tries slow 6 0))
open_stream-first_example = open_stream-first slow
