-- ===== src/Tests/Workers.antt =====
-- The worker of exchange/tx.go on two offers, with a sorting by insertion.
use mathlib.Core.List.{Perm}
use mathlib.Core.List.Perm
use go_hop_exchange.Prelude.{
  ◌≡◌, refl, Bool, true, false, none, some, List, [], ◌∷◌, if◌then◌else◌, Bool-cases, inl, inr, pos,
  All,
}
use go_hop_exchange.Deal.Offer.{Offer, default_ask}
use go_hop_exchange.Exchange.Worker.{
  is_cheaper, sort_offers, SortSlice, TxResult, failed_with, Config, started, idle, finishes,
  select_cheapest, busy, spent, Worker, push_back, push_front, done, executes, nothing, start_first,
  start_next, threshold, on_back, on_front, on_done, round,
}
use go_hop_exchange.Exchange.Sessions.{Session, begins, follows, Session-Perm}
use go_hop_exchange.Exchange.Finishing.{Rests, Session-Rests}
use go_hop_exchange.Exchange.Choosing.{IsWeakOrder, IsSorted, Chooses, another, round-Chooses}

-- The sorting by insertion.
abbrev place : (Offer → Offer → Bool) → Offer → List Offer → List Offer
place less o [] = o ∷ []
place less o (x ∷ q) = let rest = place less o q in if less x o then x ∷ rest else o ∷ x ∷ q

abbrev insertion_sort : SortSlice
insertion_sort less [] = []
insertion_sort less (o ∷ q) = place less o (insertion_sort less q)

module _ (less : Offer → Offer → Bool) where
  place-Perm : (o : Offer) (q : List Offer) → Perm (place less o q) (o ∷ q)
  place-Perm o [] = Perm.rfl
  place-Perm o (x ∷ q) = elim (Bool-cases (less x o)) [
    | inl later ↦ rw later (Perm.trans (Perm.cons x (place-Perm o q)) (Perm.swap o x q))
    | inr here ↦ rw here Perm.rfl
  ]

  insertion_sort-Perm : (q : List Offer) → Perm (insertion_sort less q) q
  insertion_sort-Perm [] = Perm.rfl
  insertion_sort-Perm (o ∷ q) =
      Perm.trans (place-Perm o (insertion_sort less q)) (Perm.cons o (insertion_sort-Perm q))

  module _ (order : IsWeakOrder less) where
    All-place :
        (x o : Offer) (q : List Offer)
        → less o x ≡ false
        → All (λ y. less y x ≡ false) q
        → All (λ y. less y x ≡ false) (place less o q)
    All-place x o [] h all = (h, tt)
    All-place x o (y ∷ q) h all = elim (Bool-cases (less y o)) [
      | inl later ↦ rw later (all.0, All-place x o q h all.1)
      | inr here ↦ rw here (h, all)
    ]

    All-trans :
        (x o : Offer) (q : List Offer)
        → less x o ≡ false
        → All (λ y. less y x ≡ false) q
        → All (λ y. less y o ≡ false) q
    All-trans x o [] h all = tt
    All-trans x o (y ∷ q) h all = (order.transitive y x o all.0 h, All-trans x o q h all.1)

    place-IsSorted : (o : Offer) (q : List Offer) → IsSorted less q → IsSorted less (place less o q)
    place-IsSorted o [] s = (tt, tt)
    place-IsSorted o (x ∷ q) s = elim (Bool-cases (less x o)) [
      | inl later ↦
          rw later (All-place x o q (order.asymmetric x o later) s.0, place-IsSorted o q s.1)
      | inr here ↦ rw here ((here, All-trans x o q here s.0), s)
    ]

    insertion_sort-IsSorted : (q : List Offer) → IsSorted less (insertion_sort less q)
    insertion_sort-IsSorted [] = tt
    insertion_sort-IsSorted (o ∷ q) =
        place-IsSorted o (insertion_sort less q) (insertion_sort-IsSorted q)

sort_offers-Perm : (q : List Offer) → Perm (sort_offers insertion_sort q) q
unfolding sort_offers
sort_offers-Perm q = insertion_sort-Perm is_cheaper q

abbrev dear : Offer
dear = record default_ask { min_price_per_byte = pos 5 }

abbrev cheap : Offer
cheap = record default_ask { min_price_per_byte = pos 3 }

abbrev two_offers : Config
two_offers = select_cheapest (pos 2) (pos 60)

abbrev waiting : Worker
waiting = record { queue = dear ∷ []; exec_done = idle; delayed = true }

abbrev running : Worker
running = record { queue = dear ∷ []; exec_done = busy cheap; delayed = true }

abbrev ended : Worker
ended = record { queue = []; exec_done = spent; delayed = true }

abbrev fine : TxResult
fine = record { err = none; size = 10; spent = pos 30; pay_ch = none }

first_round :
    round insertion_sort two_offers (push_back dear) (started two_offers) ≡ some (waiting, nothing)
unfolding round on_back threshold
first_round = refl

second_round :
    round insertion_sort two_offers (push_back cheap) waiting ≡ some (running, executes cheap)
unfolding round on_back threshold start_first sort_offers is_cheaper
second_round = refl

two_rounds : Session insertion_sort two_offers (cheap ∷ dear ∷ []) (cheap ∷ []) [] running
two_rounds =
    follows (follows begins (push_back dear) tt waiting nothing first_round) (push_back cheap) tt
      running (executes cheap) second_round

Session-Perm_example : Perm (cheap ∷ dear ∷ []) (cheap ∷ dear ∷ [])
Session-Perm_example = Session-Perm insertion_sort sort_offers-Perm two_offers two_rounds

round-Chooses_example : Chooses (running, executes cheap)
round-Chooses_example =
    round-Chooses insertion_sort insertion_sort-IsSorted two_offers (push_back cheap) waiting
      running (executes cheap) (another cheap) refl second_round

retried :
    round insertion_sort two_offers (done (failed_with "cancelled")) running
    ≡ some (record running { queue = []; exec_done = busy dear }, executes dear)
unfolding round on_done start_next
retried = refl

finished :
    round insertion_sort two_offers
      (done fine)
      (record running { queue = []; exec_done = busy dear })
    ≡ some (ended, finishes fine)
unfolding round on_done
finished = refl

all_rounds :
    Session insertion_sort two_offers (cheap ∷ dear ∷ []) (dear ∷ cheap ∷ []) (fine ∷ []) ended
all_rounds =
    follows
      (follows two_rounds (done (failed_with "cancelled")) (cheap, refl)
        (record running { queue = []; exec_done = busy dear }) (executes dear) retried)
      (done fine) (dear, refl) ended (finishes fine) finished

queued :
    round insertion_sort two_offers (push_front dear) ended
    ≡ some (record ended { queue = dear ∷ [] }, nothing)
unfolding round on_front
queued = refl

Session-Rests_example :
    (◌≡◌ {A = List TxResult} [] [])
    × Rests insertion_sort two_offers (record ended { queue = dear ∷ [] }, nothing)
    × (◌≡◌ {A = List Offer} (dear ∷ []) (dear ∷ []))
Session-Rests_example =
    Session-Rests insertion_sort two_offers fine all_rounds (push_front dear) tt
      (record ended { queue = dear ∷ [] }) nothing queued
