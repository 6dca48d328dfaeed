-- ===== src/Exchange/Greeting.antt =====
-- What a greeting that `handleHey` of exchange/peermgr.go takes changes in the peers.
use go_hop_exchange.Prelude.{
  ℕ, ◌≡◌, refl, Bool, true, false, ◌&&◌, Option, none, some, List, [], ◌∷◌, ◌==◌, if◌then◌else◌,
  Bool-cases, Option-cases, inl, inr, arith, ◌∙◌,
}
use go_hop_exchange.Exchange.Regions.{Region}
use go_hop_exchange.Exchange.Peers.{
  Hey, PeerMgr, Host, lookup, assign, greeted, greet_each, handle_hey,
}

pub lookup-assign :
    {A : Type 0} (q p : ℕ) (a : A) (m : List (ℕ × A))
    → lookup q (assign p a m) ≡ (if p == q then some a else lookup q m)
unfolding lookup assign
lookup-assign q p a [] = refl
lookup-assign q p a ((k, b) ∷ m) = ground (arith, lookup-assign q p a m)

-- Whether one of the codes is that of a region of the map.
abbrev pub shares : List ℕ → List (ℕ × Region) → Bool
shares [] m = false
shares (r ∷ rs) m = elim (lookup r m) [ none ↦ shares rs m | some _ ↦ true ]

taken :
    {A : Type 0} (b c : Bool) (a : A) (o : Option A)
    → (if b && c then some a else (if b then some a else o)) ≡ (if b then some a else o)
taken true true a o = refl
taken true false a o = refl
taken false true a o = refl
taken false false a o = refl

taken_all :
    {A : Type 0} (b : Bool) (a : A) (o : Option A)
    → (if b then some a else o) ≡ (if b && true then some a else o)
taken_all true a o = refl
taken_all false a o = refl

module _ {W : Type 0} (host : Host W) (p q : ℕ) (h : Hey) where
  greet_each-lookup :
      (rs : List ℕ) (w : W) (pm : PeerMgr)
      → lookup q (greet_each host p h rs w pm).1.peers
        ≡ (if (p == q) && shares rs pm.regions then some (greeted h) else lookup q pm.peers)
  unfolding greet_each
  greet_each-lookup [] w pm = elim (Bool-cases (p == q)) [
    | inl same ↦ rw same refl
    | inr other ↦ rw other refl
  ]
  greet_each-lookup (r ∷ rs) w pm = elim (Option-cases (lookup r pm.regions)) [
    | inl foreign ↦ rw (foreign, greet_each, shares) (greet_each-lookup rs w pm)
    | inr (reg, shared) ↦
        let w' =
          host.tag_peer (host.emit w (record { peer = p; index_root = h.index_root })) p reg.name
            10 in
        let pm' : PeerMgr = record pm { peers = assign p (greeted h) pm.peers } in
        rw (shared, greet_each, shares)
          (greet_each-lookup rs w' pm'
            ∙ rw (lookup-assign q p (greeted h) pm.peers)
                (taken (p == q) (shares rs pm.regions) (greeted h) (lookup q pm.peers))
            ∙ taken_all (p == q) (greeted h) (lookup q pm.peers))
  ]

  -- A greeting records the peer, with its regions and no latency, if it names a region of this node,
  -- and it changes nothing of the other peers, nor of a peer of other regions.
  pub handle_hey-lookup :
      (w : W) (pm : PeerMgr)
      → lookup q (handle_hey host p h w pm).1.peers
        ≡ (if (p == q) && shares h.regions pm.regions then some (greeted h) else lookup q pm.peers)
  unfolding handle_hey
  handle_hey-lookup w pm = greet_each-lookup h.regions w pm
