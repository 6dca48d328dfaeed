-- ===== src/Exchange/Finishing.antt =====
-- How a session of the worker of exchange/tx.go comes to its end.
use Prim.Native.String.{String}
use go_hop_exchange.Prelude.{
  ◌≡◌, refl, ap, sym, subst, ◌∙◌, Bool, true, false, ◌&&◌, Option, none, some, List, [], ◌∷◌, ◌++◌,
  Bool-cases, eq_of_some, none≢some, inl, inr, ◌⊎◌, if◌then◌else◌, pos, length, ltb_ℤ,
}
use go_hop_exchange.Payments.Types.{eq_ℤ}
use go_hop_exchange.Deal.Offer.{Offer}
use go_hop_exchange.Exchange.Worker.{
  SortSlice, sort_offers, TxResult, Config, Exec, busy, spent, Worker, Event, push_back, push_front,
  elapsed, done, Act, is_idle, is_dropped, is_immediate, start_first, start_next, threshold,
  on_back, on_front, on_delay, on_done, round,
}
use go_hop_exchange.Exchange.Sessions.{takes, ends, Occurs, Session, begins, follows}

spent≢busy : {o : Offer} → spent ≡ busy o → ⊥
spent≢busy h = cc

module _ (sort_slice : SortSlice) (cfg : Config) where
  -- A round that starts and ends nothing, and stays where the worker was.
  abbrev pub Rests : Worker × Act → Type 0
  Rests r = (takes r.1 ≡ []) × (ends r.1 ≡ []) × (r.0.exec_done ≡ spent)

  not_immediate : (e : Exec) → e ≡ spent → is_immediate cfg e ≡ false
  not_immediate e h =
      rw h (and_false (ltb_ℤ cfg.num_threshold (pos 0)) (ltb_ℤ cfg.time_threshold (pos 0)))
    where
      and_false : (a b : Bool) → (a && b && false) ≡ false
      and_false true true = refl
      and_false true false = refl
      and_false false true = refl
      and_false false false = refl

  not_idle : (e : Exec) → e ≡ spent → is_idle e ≡ false
  not_idle e h = ap is_idle h

  on_back-Rests :
      (o : Offer) (w w' : Worker) (a : Act)
      → w.exec_done ≡ spent
      → on_back sort_slice cfg o w ≡ some (w', a)
      → Rests (w', a)
  unfolding on_back threshold
  on_back-Rests o w w' a s h = elim (Bool-cases (is_dropped cfg o)) [
    | inl dropped ↦ subst Rests (eq_of_some (rw dropped at h)) (refl, refl, s)
    | inr kept ↦
        subst Rests
          (eq_of_some
            (rw (not_idle w.exec_done s) at (rw (not_immediate w.exec_done s) at (rw kept at h))))
          (refl, refl, s)
  ]

  round-Rests :
      (e : Event) (w w' : Worker) (a : Act)
      → Occurs w e
      → w.exec_done ≡ spent
      → round sort_slice cfg e w ≡ some (w', a)
      → Rests (w', a)
  unfolding round on_front on_delay
  round-Rests (push_back o) w w' a c s h = on_back-Rests o w w' a s h
  round-Rests (push_front o) w w' a c s h =
      subst Rests (eq_of_some (rw (not_idle w.exec_done s) at h)) (refl, refl, s)
  round-Rests elapsed w w' a c s h =
      subst Rests (eq_of_some (rw (not_idle w.exec_done s) at h)) (refl, refl, s)
  round-Rests (done res) w w' a (o, b) s h = absurd (spent≢busy (sym s ∙ b))

  -- What an event adds to a queue that no offer is taken from: an offer in front, or one behind, if
  -- the ceiling does not pass it over.
  abbrev pub joins : Event → List Offer → List Offer
  joins (push_back o) q = if is_dropped cfg o then q else q ++ (o ∷ [])
  joins (push_front o) q = o ∷ q
  joins elapsed q = q
  joins (done res) q = q

  round-joins :
      (e : Event) (w w' : Worker) (a : Act)
      → Occurs w e
      → w.exec_done ≡ spent
      → round sort_slice cfg e w ≡ some (w', a)
      → w'.queue ≡ joins e w.queue
  unfolding round on_back threshold on_front on_delay
  round-joins (push_back o) w w' a c s h = elim (Bool-cases (is_dropped cfg o)) [
    | inl dropped ↦ sym (ap (λ r. r.0.queue) (eq_of_some (rw dropped at h))) ∙ rw dropped refl
    | inr kept ↦
        sym (
          ap (λ r. r.0.queue)
            (eq_of_some (
              rw (not_idle w.exec_done s) at (rw (not_immediate w.exec_done s) at (rw kept at h)))))
        ∙ rw kept refl
  ]
  round-joins (push_front o) w w' a c s h =
      sym (ap (λ r. r.0.queue) (eq_of_some (rw (not_idle w.exec_done s) at h)))
  round-joins elapsed w w' a c s h =
      sym (ap (λ r. r.0.queue) (eq_of_some (rw (not_idle w.exec_done s) at h)))
  round-joins (done res) w w' a (o, b) s h = absurd (spent≢busy (sym s ∙ b))

  -- The results that were given: none yet, or one, and then nothing is left to run.
  abbrev pub Finished : List TxResult → Worker → Type 0
  Finished results w =
      (results ≡ []) ⊎ ((res : TxResult) × (results ≡ res ∷ []) × (w.exec_done ≡ spent))

  -- What a round gives to the transaction.
  abbrev Gives : Worker × Act → Type 0
  Gives r = (ends r.1 ≡ []) ⊎ ((res : TxResult) × (ends r.1 ≡ res ∷ []) × (r.0.exec_done ≡ spent))

  start_first-Gives :
      (q : List Offer) (w w' : Worker) (a : Act) → start_first q w ≡ some (w', a) → Gives (w', a)
  unfolding start_first
  start_first-Gives [] w w' a h = absurd (none≢some h)
  start_first-Gives (o ∷ q) w w' a h = subst Gives (eq_of_some h) (inl refl)

  on_back-Gives :
      (o : Offer) (w w' : Worker) (a : Act)
      → on_back sort_slice cfg o w ≡ some (w', a)
      → Gives (w', a)
  unfolding on_back threshold
  on_back-Gives o w w' a h = elim (Bool-cases (is_dropped cfg o)) [
    | inl dropped ↦ subst Gives (eq_of_some (rw dropped at h)) (inl refl)
    | inr kept ↦ elim (Bool-cases (is_immediate cfg w.exec_done)) [
      | inl now ↦ subst Gives (eq_of_some (rw now at (rw kept at h))) (inl refl)
      | inr later ↦
          let q = w.queue ++ (o ∷ []) in
          elim (Bool-cases (is_idle w.exec_done && eq_ℤ (pos (length q)) cfg.num_threshold)) [
            | inl reached ↦
                start_first-Gives (sort_offers sort_slice q) w w' a
                  (rw reached at (rw later at (rw kept at h)))
            | inr below ↦
                subst Gives (eq_of_some (rw below at (rw later at (rw kept at h)))) (inl refl)
          ]
    ]
  ]

  round-Gives :
      (e : Event) (w w' : Worker) (a : Act)
      → round sort_slice cfg e w ≡ some (w', a)
      → Gives (w', a)
  unfolding round on_front on_delay on_done start_next
  round-Gives (push_back o) w w' a h = on_back-Gives o w w' a h
  round-Gives (push_front o) w w' a h = elim (Bool-cases (is_idle w.exec_done)) [
    | inl now ↦ subst Gives (eq_of_some (rw now at h)) (inl refl)
    | inr later ↦ subst Gives (eq_of_some (rw later at h)) (inl refl)
  ]
  round-Gives elapsed w w' a h = elim (Bool-cases (is_idle w.exec_done)) [
    | inl now ↦ start_first-Gives (sort_offers sort_slice w.queue) _ w' a (rw now at h)
    | inr later ↦ subst Gives (eq_of_some (rw later at h)) (inl refl)
  ]
  round-Gives (done res) w w' a h = by_result res.err refl
    where
      next : (q : List Offer) → start_next res q w ≡ (w', a) → Gives (w', a)
      next [] e = subst Gives e (inr (res, refl, refl))
      next (o ∷ q) e = subst Gives e (inl refl)

      by_result : (x : Option String) → res.err ≡ x → Gives (w', a)
      by_result none e = subst Gives (eq_of_some (rw (e, on_done) at h)) (inr (res, refl, refl))
      by_result (some t) e = next w.queue (eq_of_some (rw (e, on_done) at h))

  Session-Finished :
      {came went : List Offer} {results : List TxResult} {w : Worker}
      → Session sort_slice cfg came went results w
      → Finished results w
  Session-Finished begins = inl refl
  Session-Finished (follows {results = results} {w = w} s e c w' a h) = elim (Session-Finished s) [
    | inl unfinished ↦ rw unfinished (elim (round-Gives e w w' a h) [
      | inl silent ↦ inl (ap (λ r. r ++ []) silent)
      | inr (res, gave, ended) ↦ inr (res, ap (λ r. r ++ []) gave, ended)
    ])
    | inr (res, gave, ended) ↦
        let rests = round-Rests e w w' a c ended h in
        inr (res, ap (λ r. r ++ results) rests.1 ∙ gave, rests.2)
  ]

  -- A transaction is finished at most once, and after that the worker executes no offer and finishes
  -- nothing, whatever comes in: an offer joins the queue, in front or behind, unless it comes in behind
  -- and the ceiling passes it over, and stays there.
  pub Session-Rests :
      {came went : List Offer} {results : List TxResult} {w : Worker} (res : TxResult)
      → Session sort_slice cfg came went (res ∷ results) w
      → (e : Event) → Occurs w e
      → (w' : Worker) (a : Act) → round sort_slice cfg e w ≡ some (w', a)
      → (results ≡ []) × Rests (w', a) × (w'.queue ≡ joins e w.queue)
  Session-Rests {results = results} {w = w} res s e c w' a h = elim (Session-Finished s) [
    | inl unfinished ↦ absurd (cons_nil unfinished)
    | inr (res', gave, ended) ↦
        (tail_eq gave, round-Rests e w w' a c ended h, round-joins e w w' a c ended h)
  ]
    where
      cons_nil : res ∷ results ≡ [] → ⊥
      cons_nil q = cc

      tail_eq : {res' : TxResult} → res ∷ results ≡ res' ∷ [] → results ≡ []
      tail_eq q = cc
