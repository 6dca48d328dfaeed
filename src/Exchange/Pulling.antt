-- ===== src/Exchange/Pulling.antt =====
-- Which peers `ValidatePull` of exchange/replication.go lets pull content, and which `Dispatch` asks.
use go_hop_exchange.Prelude.{
  ℕ, ◌+◌, ◌-◌, ◌≡◌, refl, ap, sym, ◌∙◌, Bool, true, false, ◌&&◌, ◌||◌, Option, none, some, List, [],
  ◌∷◌, ◌==◌, if◌then◌else◌, Bool-cases, Option-cases, inl, inr, ◌⊎◌, Result, ok, err, All, Any,
  arith, ==_iff,
}
use go_hop_exchange.Index.Buckets.{contains, insert}
use go_hop_exchange.Exchange.Regions.{Region}
use go_hop_exchange.Exchange.Peers.{Peer, PeerMgr, lookup, assign, peers_for}
use go_hop_exchange.Exchange.Greeting.{lookup-assign}
use go_hop_exchange.Exchange.Selection.{IsChosen, Fitting, pick_all-All}
use go_hop_exchange.Exchange.Replication.{
  Request, is_fetch_index, a_request, Pulls, authorize_pull, may_pull, validate_pull, Dispatching,
  authorize_all, attempt,
}

abbrev pub is_ok : {A : Type 0} → Result A → Bool
is_ok (ok _) = true
is_ok (err _) = false

contains-insert : (q p : ℕ) (set : List ℕ) → contains q (insert p set) ≡ (contains q set || p == q)
unfolding contains insert
contains-insert q p set = elim (Bool-cases (contains p set)) [
  | inl there ↦ rw there (same q p set there)
  | inr new ↦ rw new (ground arith)
]
  where
    same :
        (q p : ℕ) (set : List ℕ)
        → contains p set ≡ true
        → contains q set ≡ (contains q set || p == q)
    same q p [] h = cc
    same q p (x ∷ set) h = ground (arith, same q p set)

-- The set of a content holds a peer.
abbrev holds : ℕ → Option (List ℕ) → Bool
holds q none = false
holds q (some set) = contains q set

is_ok-may_pull : (pulls : Pulls) (q j : ℕ) → is_ok (may_pull pulls q j) ≡ holds q (lookup j pulls)
unfolding may_pull
is_ok-may_pull pulls q j = elim (Option-cases (lookup j pulls)) [
  | inl unknown ↦ rw (unknown, may_pull) refl
  | inr (set, known) ↦
      rw (known, may_pull)
        (elim (Bool-cases (contains q set)) [
          | inl there ↦ rw there refl
          | inr absent ↦ rw absent refl
        ])
]

-- The set that `AuthorizePull` leaves for the content.
abbrev joined : ℕ → Option (List ℕ) → List ℕ
joined p none = p ∷ []
joined p (some set) = insert p set

holds-joined : (q p : ℕ) (o : Option (List ℕ)) → contains q (joined p o) ≡ (holds q o || p == q)
unfolding contains
holds-joined q p none = ground arith
holds-joined q p (some set) = contains-insert q p set

authorize_pull-joined :
    (k p : ℕ) (pulls : Pulls)
    → authorize_pull k p pulls ≡ assign k (joined p (lookup k pulls)) pulls
unfolding authorize_pull
authorize_pull-joined k p pulls = elim (Option-cases (lookup k pulls)) [
  | inl unknown ↦ rw (unknown, authorize_pull) refl
  | inr (set, known) ↦ rw (known, authorize_pull) refl
]

or_false : (a : Bool) → a ≡ (a || false)
or_false true = refl
or_false false = refl

may_pull-authorize :
    (pulls : Pulls) (k p q j : ℕ)
    → is_ok (may_pull (authorize_pull k p pulls) q j)
      ≡ (is_ok (may_pull pulls q j) || (k == j && p == q))
may_pull-authorize pulls k p q j =
    is_ok-may_pull (authorize_pull k p pulls) q j
    ∙ ap (λ m. holds q (lookup j m)) (authorize_pull-joined k p pulls)
    ∙ ap (holds q) (lookup-assign j k (joined p (lookup k pulls)) pulls)
    ∙ by_key (Bool-cases (k == j))
    ∙ ap (λ b. b || (k == j && p == q)) (sym (is_ok-may_pull pulls q j))
  where
    by_key :
        ((k == j) ≡ true) ⊎ ((k == j) ≡ false)
        → holds q (if k == j then some (joined p (lookup k pulls)) else lookup j pulls)
          ≡ (holds q (lookup j pulls) || (k == j && p == q))
    by_key (inl same) = rw same (
        holds-joined q p (lookup k pulls)
        ∙ ap (λ l. holds q (lookup l pulls) || p == q) ((==_iff k j).0 same))
    by_key (inr other) = rw other (or_false (holds q (lookup j pulls)))

-- What an authorization changes: a transfer of content is accepted if it was before, or if it is of
-- this content to this peer; a transfer of an index always is.
validate_pull-authorize :
    (pulls : Pulls) (k p q j : ℕ) (r : Request)
    → is_ok (validate_pull (authorize_pull k p pulls) q (a_request r) j)
      ≡ (is_ok (validate_pull pulls q (a_request r) j) || (k == j && p == q))
unfolding validate_pull
validate_pull-authorize pulls k p q j r = elim (Bool-cases (is_fetch_index r.method)) [
  | inl index ↦ rw index refl
  | inr content ↦ rw content (may_pull-authorize pulls k p q j)
]

-- The go-routine of a dispatch, between whose attempts confirmations come in, the peers of the node
-- change, and other content is dispatched.
pub data Dispatches (root rf : ℕ) (rgs : List Region) : Dispatching → Type 0 where
  begins :
      (pulls : Pulls)
      → Dispatches root rf rgs (record { received = 0; attempts = 0; sent = []; pulls = pulls })
  attempts :
      {d : Dispatching}
      → Dispatches root rf rgs d
      → (pm : PeerMgr) → Dispatches root rf rgs (attempt rf root rgs pm d).0
  confirms :
      {d : Dispatching}
      → Dispatches root rf rgs d
      → Dispatches root rf rgs (record d { received = d.received + 1 })
  authorizes :
      {d : Dispatching}
      → Dispatches root rf rgs d
      → (k p : ℕ) → Dispatches root rf rgs (record d { pulls = authorize_pull k p d.pulls })

-- The peers may pull the content.
abbrev pub MayPull : ℕ → Pulls → ℕ → Type 0
MayPull root pulls p = is_ok (may_pull pulls p root) ≡ true

still : (b c : Bool) → b ≡ true → (b || c) ≡ true
still true c h = refl
still false c h = cc

MayPull-authorize :
    (root k q p : ℕ) (pulls : Pulls)
    → MayPull root pulls p
    → MayPull root (authorize_pull k q pulls) p
MayPull-authorize root k q p pulls h =
    may_pull-authorize pulls k q p root
    ∙ still (is_ok (may_pull pulls p root)) (k == root && q == p) h

MayPull-authorized : (root p : ℕ) (pulls : Pulls) → MayPull root (authorize_pull root p pulls) p
MayPull-authorized root p pulls =
    may_pull-authorize pulls root p p root ∙ at_end (is_ok (may_pull pulls p root))
  where
    at_end : (b : Bool) → (b || (root == root && p == p)) ≡ true
    at_end b = ground arith

All-map :
    {A : Type 0} (P Q : A → Type 0) (xs : List A) → ((x : A) → P x → Q x) → All P xs → All Q xs
All-map P Q [] f a = tt
All-map P Q (x ∷ xs) f a = (f x a.0, All-map P Q xs f a.1)

authorize_all-MayPull :
    (root : ℕ) (ps : List ℕ) (d : Dispatching)
    → All (MayPull root d.pulls) d.sent
    → All (MayPull root (authorize_all root ps d).pulls) (authorize_all root ps d).sent
unfolding authorize_all
authorize_all-MayPull root [] d a = a
authorize_all-MayPull root (p ∷ ps) d a =
    authorize_all-MayPull root ps
      (record d { sent = p ∷ d.sent; pulls = authorize_pull root p d.pulls })
      (
        MayPull-authorized root p d.pulls,
        All-map (MayPull root d.pulls) (MayPull root (authorize_pull root p d.pulls)) d.sent
            (λ x h. MayPull-authorize root root p x d.pulls h) a,
      )

Dispatches-MayPull :
    {root rf : ℕ} {rgs : List Region} {d : Dispatching}
    → Dispatches root rf rgs d
    → All (MayPull root d.pulls) d.sent
unfolding attempt
Dispatches-MayPull (begins pulls) = tt
Dispatches-MayPull {root} {rf} {rgs} (attempts {d = d} h pm) =
    authorize_all-MayPull root (peers_for (rf - d.received) rgs (λ p. contains p d.sent) pm)
      (record d { attempts = d.attempts + 1 }) (Dispatches-MayPull h)
Dispatches-MayPull (confirms h) = Dispatches-MayPull h
Dispatches-MayPull {root} (authorizes {d = d} h k p) =
    All-map (MayPull root d.pulls) (MayPull root (authorize_pull k p d.pulls)) d.sent
      (λ x m. MayPull-authorize root k p x d.pulls m) (Dispatches-MayPull h)

authorize_all_mono :
    (root p : ℕ) (ps : List ℕ) (d : Dispatching)
    → MayPull root d.pulls p
    → MayPull root (authorize_all root ps d).pulls p
unfolding authorize_all
authorize_all_mono root p [] d h = h
authorize_all_mono root p (q ∷ ps) d h =
    authorize_all_mono root p ps
      (record d { sent = q ∷ d.sent; pulls = authorize_pull root q d.pulls })
      (MayPull-authorize root root q p d.pulls h)

authorize_all-asked :
    (root : ℕ) (ps : List ℕ) (d : Dispatching)
    → All (MayPull root (authorize_all root ps d).pulls) ps
unfolding authorize_all
authorize_all-asked root [] d = tt
authorize_all-asked root (p ∷ ps) d =
    let d' : Dispatching = record d { sent = p ∷ d.sent; pulls = authorize_pull root p d.pulls } in
    (
      authorize_all_mono root p ps d' (MayPull-authorized root p d.pulls),
      authorize_all-asked root ps d',
    )

IsChosen-open :
    (rl : List Region) (ignore : ℕ → Bool) (ps : List (ℕ × Peer)) (p : ℕ)
    → IsChosen rl ignore ps p
    → ignore p ≡ false
IsChosen-open [] ignore ps p h = absurd h
IsChosen-open (r ∷ rl) ignore ps p (inl h) = by_peer ps h
  where
    by_peer :
        (qs : List (ℕ × Peer))
        → Any (λ e. (e.0 ≡ p) × Fitting ignore r.code e) qs
        → ignore p ≡ false
    by_peer [] h = absurd h
    by_peer (e ∷ qs) (inl (same, (open', named))) = ap ignore (sym same) ∙ open'
    by_peer (e ∷ qs) (inr h) = by_peer qs h
IsChosen-open (r ∷ rl) ignore ps p (inr h) = IsChosen-open rl ignore ps p h

peers_for-open :
    (n : ℕ) (rl : List Region) (ignore : ℕ → Bool) (pm : PeerMgr)
    → All (λ p. ignore p ≡ false) (peers_for n rl ignore pm)
unfolding peers_for
peers_for-open n rl ignore pm = elim (Bool-cases (n == 0)) [
  | inl zero ↦ rw zero tt
  | inr more ↦ rw more (
      pick_all-All (λ p. ignore p ≡ false) n ignore pm.peers rl []
        (IsChosen-open rl ignore pm.peers) tt)
]

-- In the go-routine of a dispatch, whatever came in between its attempts, each attempt asks only peers
-- that were not asked before, and they may all pull the content, as may those that were asked before.
pub attempt-MayPull :
    {root rf : ℕ} {rgs : List Region} {d : Dispatching}
    → Dispatches root rf rgs d
    → (pm : PeerMgr)
    → All (λ p. contains p d.sent ≡ false) (attempt rf root rgs pm d).1
      × All (MayPull root (attempt rf root rgs pm d).0.pulls) (attempt rf root rgs pm d).1
      × All (MayPull root (attempt rf root rgs pm d).0.pulls) (attempt rf root rgs pm d).0.sent
unfolding attempt
attempt-MayPull {root} {rf} {rgs} {d} h pm =
    let ps = peers_for (rf - d.received) rgs (λ p. contains p d.sent) pm in
    (
      peers_for-open (rf - d.received) rgs (λ p. contains p d.sent) pm,
      authorize_all-asked root ps (record d { attempts = d.attempts + 1 }),
      Dispatches-MayPull (attempts h pm),
    )
