-- ===== src/Exchange/Sessions.antt =====
-- The sessions of the worker of exchange/tx.go: its rounds from the start on, over any events that can
-- come in.
use Prim.Native.String.{String}
use mathlib.Core.List.{Perm, perm_append_singleton, perm_append_comm, append_assoc}
use mathlib.Core.List.Perm
use go_hop_exchange.Prelude.{
  ◌≡◌, refl, sym, subst, true, false, ◌&&◌, Option, none, some, List, [], ◌∷◌, ◌++◌, if◌then◌else◌,
  Bool-cases, eq_of_some, none≢some, inl, inr, pos, length,
}
use go_hop_exchange.Payments.Types.{eq_ℤ}
use go_hop_exchange.Deal.Offer.{Offer}
use go_hop_exchange.Exchange.Worker.{
  SortSlice, sort_offers, TxResult, Config, busy, Worker, started, Event, push_back, push_front,
  elapsed, done, Act, executes, finishes, nothing, is_idle, is_dropped, is_immediate, start_first,
  start_next, threshold, on_back, on_front, on_delay, on_done, round,
}

-- The offers that an event brings in: one that the ceiling passes over is none.
abbrev pub brings : Config → Event → List Offer
brings cfg (push_back o) = if is_dropped cfg o then [] else o ∷ []
brings cfg (push_front o) = o ∷ []
brings cfg elapsed = []
brings cfg (done res) = []

-- The offers that a round executes.
abbrev pub takes : Act → List Offer
takes (executes o) = o ∷ []
takes (finishes _) = []
takes nothing = []

-- The results that a round finishes the transaction with.
abbrev pub ends : Act → List TxResult
ends (executes _) = []
ends (finishes res) = res ∷ []
ends nothing = []

-- Whether an event can come in: the delay passes once, and an execution that runs has one result.
abbrev pub Occurs : Worker → Event → Type 0
Occurs w (push_back o) = Unit {0}
Occurs w (push_front o) = Unit {0}
Occurs w elapsed = w.delayed ≡ true
Occurs w (done res) = (o : Offer) × (w.exec_done ≡ busy o)

-- A session: the offers that came in, those that were executed and the results that were given, the
-- latest first, and the worker.
pub data Session (sort_slice : SortSlice) (cfg : Config)
    : List Offer → List Offer → List TxResult → Worker → Type 0 where
  begins : Session sort_slice cfg [] [] [] (started cfg)
  follows :
      {came went : List Offer} {results : List TxResult} {w : Worker}
      → Session sort_slice cfg came went results w
      → (e : Event) → Occurs w e
      → (w' : Worker) → (a : Act) → round sort_slice cfg e w ≡ some (w', a)
      → Session sort_slice cfg (brings cfg e ++ came) (takes a ++ went) (ends a ++ results) w'

-- Two lists change places in front of a third.
swap_front : {A : Type 0} (a b c : List A) → Perm (a ++ (b ++ c)) (b ++ (a ++ c))
swap_front a b c =
    subst (λ r. Perm r (b ++ (a ++ c))) (append_assoc a b c)
      (subst (Perm ((a ++ b) ++ c)) (append_assoc b a c)
        (Perm.append_right c (perm_append_comm a b)))

moved :
    {A : Type 0} (b came went t q q' : List A)
    → Perm came (went ++ q)
    → Perm (b ++ q) (t ++ q')
    → Perm (b ++ came) ((t ++ went) ++ q')
moved b came went t q q' p s = Perm.trans (Perm.append_left b p) (
    Perm.trans (swap_front b went q) (
      Perm.trans (Perm.append_left went s)
        (subst (Perm (went ++ (t ++ q'))) (sym (append_assoc t went q')) (swap_front went t q'))))

-- The offers of the round and the queue are those that it executes and the queue that it leaves.
abbrev Keeps : List Offer → Worker → Act → Type 0
Keeps q w a = Perm q (takes a ++ w.queue)

start_first-Keeps :
    (q : List Offer) (w w' : Worker) (a : Act) → start_first q w ≡ some (w', a) → Keeps q w' a
unfolding start_first
start_first-Keeps [] w w' a h = absurd (none≢some h)
start_first-Keeps (o ∷ q) w w' a h =
    let e = eq_of_some h in subst (λ (r : Worker × Act). Keeps (o ∷ q) r.0 r.1) e Perm.rfl

module _ (sort_slice : SortSlice) (sorts : (q : List Offer) → Perm (sort_offers sort_slice q) q)
    (cfg : Config) where
  threshold-Keeps :
      (q : List Offer) (w w' : Worker) (a : Act)
      → threshold sort_slice cfg q w ≡ some (w', a)
      → Keeps q w' a
  unfolding threshold
  threshold-Keeps q w w' a h =
      elim (Bool-cases (is_idle w.exec_done && eq_ℤ (pos (length q)) cfg.num_threshold)) [
        | inl reached ↦
            Perm.trans (Perm.symm (sorts q))
              (start_first-Keeps (sort_offers sort_slice q) w w' a (rw reached at h))
        | inr below ↦
            subst (λ (r : Worker × Act). Keeps q r.0 r.1) (eq_of_some (rw below at h)) Perm.rfl
      ]

  on_back-Keeps :
      (o : Offer) (w w' : Worker) (a : Act)
      → on_back sort_slice cfg o w ≡ some (w', a)
      → Keeps (brings cfg (push_back o) ++ w.queue) w' a
  unfolding on_back
  on_back-Keeps o w w' a h = elim (Bool-cases (is_dropped cfg o)) [
    | inl dropped ↦ rw dropped (
        subst (λ (r : Worker × Act). Keeps w.queue r.0 r.1) (eq_of_some (rw dropped at h)) Perm.rfl)
    | inr kept ↦ elim (Bool-cases (is_immediate cfg w.exec_done)) [
      | inl now ↦ rw kept (
          subst (λ (r : Worker × Act). Keeps (o ∷ w.queue) r.0 r.1)
            (eq_of_some (rw now at (rw kept at h))) Perm.rfl)
      | inr later ↦ rw kept (
          Perm.trans (Perm.symm (perm_append_singleton o w.queue))
            (threshold-Keeps (w.queue ++ (o ∷ [])) w w' a (rw later at (rw kept at h))))
    ]
  ]

  round-Keeps :
      (e : Event) (w w' : Worker) (a : Act)
      → Occurs w e
      → round sort_slice cfg e w ≡ some (w', a)
      → Keeps (brings cfg e ++ w.queue) w' a
  unfolding round on_front on_delay on_done
  round-Keeps (push_back o) w w' a c h = on_back-Keeps o w w' a h
  round-Keeps (push_front o) w w' a c h = elim (Bool-cases (is_idle w.exec_done)) [
    | inl now ↦
        subst (λ (r : Worker × Act). Keeps (o ∷ w.queue) r.0 r.1) (eq_of_some (rw now at h))
          Perm.rfl
    | inr later ↦
        subst (λ (r : Worker × Act). Keeps (o ∷ w.queue) r.0 r.1) (eq_of_some (rw later at h))
          Perm.rfl
  ]
  round-Keeps elapsed w w' a c h = elim (Bool-cases (is_idle w.exec_done)) [
    | inl now ↦ Perm.trans (Perm.symm (sorts w.queue)) (
        start_first-Keeps (sort_offers sort_slice w.queue) (record w { delayed = false }) w' a
          (rw now at h))
    | inr later ↦
        subst (λ (r : Worker × Act). Keeps w.queue r.0 r.1) (eq_of_some (rw later at h)) Perm.rfl
  ]
  round-Keeps (done res) w w' a c h = by_result res.err refl
    where
      next : (q : List Offer) → start_next res q w ≡ (w', a) → Keeps q w' a
      next [] e = subst (λ (r : Worker × Act). Keeps [] r.0 r.1) e Perm.rfl
      next (o ∷ q) e = subst (λ (r : Worker × Act). Keeps (o ∷ q) r.0 r.1) e Perm.rfl

      by_result : (x : Option String) → res.err ≡ x → Keeps w.queue w' a
      by_result none e =
          subst (λ (r : Worker × Act). Keeps w.queue r.0 r.1) (eq_of_some (rw (e, on_done) at h))
            Perm.rfl
      by_result (some t) e = next w.queue (eq_of_some (rw (e, on_done) at h))

  -- No offer is lost and none is executed twice: in every session the offers that came in, less those
  -- that the ceiling passed over, are those that were executed and those in the queue, in some order.
  pub Session-Perm :
      {came went : List Offer} {results : List TxResult} {w : Worker}
      → Session sort_slice cfg came went results w
      → Perm came (went ++ w.queue)
  Session-Perm begins = Perm.rfl
  Session-Perm (follows {came = came} {went = went} {w = w} s e c w' a h) =
      moved (brings cfg e) came went (takes a) w.queue w'.queue (Session-Perm s)
        (round-Keeps e w w' a c h)
