-- ===== src/Exchange/Pumping.antt =====
-- The indexes that `pumpIndexes` of exchange/replication.go fetches.
use mathlib.Core.List.{append_assoc, append-nil}
use go_hop_exchange.Prelude.{
  ℕ, ◌≡◌, refl, ap, sym, ◌∙◌, true, false, Option, none, some, List, [], ◌∷◌, ◌++◌, map, Bool-cases,
  inl, inr,
}
use go_hop_exchange.Exchange.Replication.{
  Announced, Fetch, unused, fetching, drained, Pump, Arrival, hey, fetched, is_unused, on_root,
  on_fetched, pump_round,
}

-- What an event announces.
abbrev pub announced : ℕ → Option ℕ → List Announced
announced peer none = []
announced peer (some root) = (peer, root) ∷ []

abbrev pub brings : Arrival → List Announced
brings (hey evt) = announced evt.peer evt.index_root
brings (fetched root e) = []

-- A result comes from a fetch that runs.
abbrev pub Occurs : Pump → Arrival → Type 0
Occurs p (hey evt) = Unit {0}
Occurs p (fetched root e) = p.fetch_done ≡ fetching root

-- The root of the fetch whose result an event is.
abbrev pub results : Arrival → List ℕ
results (hey evt) = []
results (fetched root e) = root ∷ []

-- The root of the fetch that runs, if there is one.
abbrev pub running : Fetch → List ℕ
running (fetching root) = root ∷ []
running unused = []
running drained = []

abbrev pub roots : List Announced → List ℕ
roots l = map (λ a. a.1) l

-- The rounds from the start on: what was announced, what was fetched, and the fetches that have
-- ended, the earliest first.
pub data Pumps : List Announced → List Announced → List ℕ → Pump → Type 0 where
  begins : Pumps [] [] [] (record { queue = []; fetch_done = unused })
  follows :
      {came went : List Announced} {ended : List ℕ} {p : Pump}
      → Pumps came went ended p
      → (a : Arrival) → Occurs p a
      → Pumps
          (came ++ brings a)
          (went ++ (pump_round a p).1.fetches)
          (ended ++ results a)
          (pump_round a p).0

-- The pump is in order: nothing waits for a fetch that was not begun, and of the fetches that were
-- begun only the one that runs has not ended.
pub record InOrder (came went : List Announced) (ended : List ℕ) (p : Pump) : Type 0 where
  pub all : came ≡ went ++ p.queue
  pub early : is_unused p.fetch_done ≡ true → p.queue ≡ []
  pub single : roots went ≡ ended ++ running p.fetch_done

roots_append : (l m : List Announced) → roots (l ++ m) ≡ roots l ++ roots m
roots_append [] m = refl
roots_append (a ∷ l) m = ap (λ r. a.1 ∷ r) (roots_append l m)

false-true : false ≡ true → ⊥
false-true h = cc

step_all :
    (came went q b f q' : List Announced)
    → came ≡ went ++ q
    → q ++ b ≡ f ++ q'
    → came ++ b ≡ (went ++ f) ++ q'
step_all came went q b f q' e s =
    ap (λ l. l ++ b) e
    ∙ append_assoc went q b
    ∙ ap (λ l. went ++ l) s
    ∙ sym (append_assoc went f q')

round-queue :
    (a : Arrival) (p : Pump)
    → (is_unused p.fetch_done ≡ true → p.queue ≡ [])
    → p.queue ++ brings a ≡ (pump_round a p).1.fetches ++ (pump_round a p).0.queue
unfolding pump_round on_fetched
round-queue (hey evt) p early = by_root evt.index_root refl
  where
    idle_root :
        (root : ℕ)
        → p.queue ++ ((evt.peer, root) ∷ [])
          ≡ (on_root evt.peer root p).1.fetches ++ (on_root evt.peer root p).0.queue
    idle_root root = elim (Bool-cases (is_unused p.fetch_done)) [
      | inl idle ↦
          rw (idle, on_root)
            (ap (λ q. q ++ ((evt.peer, root) ∷ [])) (early idle)
              ∙ ap (λ q. (evt.peer, root) ∷ q) (sym (early idle)))
      | inr busy ↦ rw (busy, on_root) refl
    ]

    by_root :
        (o : Option ℕ)
        → evt.index_root ≡ o
        → p.queue ++ announced evt.peer evt.index_root
          ≡ (pump_round (hey evt) p).1.fetches ++ (pump_round (hey evt) p).0.queue
    by_root none e = rw (e, pump_round) (append-nil p.queue)
    by_root (some root) e = rw (e, pump_round) (idle_root root)
round-queue (fetched root e) p early = append-nil p.queue ∙ sym (by_queue p.queue)
  where
    by_queue :
        (q : List Announced)
        → (on_fetched root e q p).1.fetches ++ (on_fetched root e q p).0.queue ≡ q
    by_queue [] = refl
    by_queue ((peer, next) ∷ q) = refl

round_early :
    (a : Arrival) (p : Pump)
    → (is_unused p.fetch_done ≡ true → p.queue ≡ [])
    → is_unused (pump_round a p).0.fetch_done ≡ true
    → (pump_round a p).0.queue ≡ []
unfolding pump_round on_fetched
round_early (hey evt) p early u = by_root evt.index_root refl u
  where
    busy_root :
        (root : ℕ)
        → is_unused (on_root evt.peer root p).0.fetch_done ≡ true
        → (on_root evt.peer root p).0.queue ≡ []
    busy_root root v = elim (Bool-cases (is_unused p.fetch_done)) [
      | inl idle ↦ absurd (false-true (rw (idle, on_root) at v))
      | inr busy ↦ absurd (false-true (sym busy ∙ (rw (busy, on_root) at v)))
    ]

    by_root :
        (o : Option ℕ)
        → evt.index_root ≡ o
        → is_unused (pump_round (hey evt) p).0.fetch_done ≡ true
        → (pump_round (hey evt) p).0.queue ≡ []
    by_root none e v = rw (e, pump_round) (early (rw (e, pump_round) at v))
    by_root (some root) e v = rw (e, pump_round) (busy_root root (rw (e, pump_round) at v))
round_early (fetched root e) p early u = by_queue p.queue u
  where
    by_queue :
        (q : List Announced)
        → is_unused (on_fetched root e q p).0.fetch_done ≡ true
        → (on_fetched root e q p).0.queue ≡ []
    by_queue [] v = refl
    by_queue ((peer, next) ∷ q) v = absurd (false-true v)

running_unused : (f : Fetch) → is_unused f ≡ true → running f ≡ []
running_unused unused u = refl
running_unused (fetching root) u = absurd (false-true u)
running_unused drained u = refl

-- What a round starts takes the place of what it ends.
round-running :
    (a : Arrival) (p : Pump)
    → Occurs p a
    → running p.fetch_done ++ roots (pump_round a p).1.fetches
      ≡ results a ++ running (pump_round a p).0.fetch_done
unfolding pump_round on_fetched
round-running (hey evt) p c = by_root evt.index_root refl
  where
    by_guard :
        (root : ℕ)
        → running p.fetch_done ++ roots (on_root evt.peer root p).1.fetches
          ≡ running (on_root evt.peer root p).0.fetch_done
    by_guard root = elim (Bool-cases (is_unused p.fetch_done)) [
      | inl idle ↦
          rw (idle, on_root) (ap (λ l. l ++ (root ∷ [])) (running_unused p.fetch_done idle))
      | inr busy ↦ rw (busy, on_root) (append-nil (running p.fetch_done))
    ]

    by_root :
        (o : Option ℕ)
        → evt.index_root ≡ o
        → running p.fetch_done ++ roots (pump_round (hey evt) p).1.fetches
          ≡ running (pump_round (hey evt) p).0.fetch_done
    by_root none e = rw (e, pump_round) (append-nil (running p.fetch_done))
    by_root (some root) e = rw (e, pump_round) (by_guard root)
round-running (fetched root e) p c =
    ap (λ f. running f ++ roots (on_fetched root e p.queue p).1.fetches) c ∙ by_queue p.queue
  where
    by_queue :
        (q : List Announced)
        → (root ∷ []) ++ roots (on_fetched root e q p).1.fetches
          ≡ (root ∷ []) ++ running (on_fetched root e q p).0.fetch_done
    by_queue [] = refl
    by_queue ((peer, next) ∷ q) = refl

Pumps-InOrder :
    {came went : List Announced} {ended : List ℕ} {p : Pump}
    → Pumps came went ended p
    → InOrder came went ended p
Pumps-InOrder begins = record { all = refl; early = λ u. refl; single = refl }
Pumps-InOrder (follows {came = came} {went = went} {ended = ended} {p = p} h a c) =
    let before = Pumps-InOrder h in
    let started = (pump_round a p).1.fetches in
    let after = (pump_round a p).0 in
    record {
      all =
          step_all came went p.queue (brings a) started after.queue before.all
            (round-queue a p before.early);
      early = round_early a p before.early;
      single =
          roots_append went started
          ∙ ap (λ l. l ++ roots started) before.single
          ∙ append_assoc ended (running p.fetch_done) (roots started)
          ∙ ap (λ l. ended ++ l) (round-running a p c)
          ∙ sym (append_assoc ended (results a) (running after.fetch_done));
    }

-- Indexes are fetched one at a time in the order in which they were announced: those that were
-- announced are those of which a fetch was begun, and behind them those in the queue; and the fetches
-- that were begun are those that have ended, and behind them at most one, which is the one that runs.
pub Pumps-order :
    {came went : List Announced} {ended : List ℕ} {p : Pump}
    → Pumps came went ended p
    → (came ≡ went ++ p.queue) × (roots went ≡ ended ++ running p.fetch_done)
Pumps-order h = let o = Pumps-InOrder h in (o.all, o.single)
