-- ===== src/Exchange/Choosing.antt =====
-- Which offer the worker of exchange/tx.go takes.
use go_hop_exchange.Prelude.{
  ◌≡◌, refl, ap, subst, Bool, true, false, arith, ltb_ℤ→ge, ◌&&◌, none, some, List, [], ◌∷◌, ◌++◌,
  if◌then◌else◌, Bool-cases, eq_of_some, none≢some, inl, inr, ℤ, pos, negsuc, length, ltb_ℤ, ◌≤ℤ◌,
  All,
}
use go_hop_exchange.Payments.Types.{eq_ℤ}
use go_hop_exchange.Deal.Offer.{Offer}
use go_hop_exchange.Exchange.Worker.{
  is_cheaper, SortSlice, sort_offers, Config, select_first_lower_than, idle, busy, Worker, started,
  Event, push_back, elapsed, Act, executes, finishes, nothing, is_idle, is_dropped, is_immediate,
  start_first, threshold, on_back, on_delay, round,
}

-- A strict weak order, as the documentation of `sort.Slice` wants it of the comparison: what is not
-- less is transitive too.
pub record IsWeakOrder (less : Offer → Offer → Bool) : Type 0 where
  pub asymmetric : (a b : Offer) → less a b ≡ true → less b a ≡ false
  pub transitive : (a b c : Offer) → less a b ≡ false → less b c ≡ false → less a c ≡ false

-- No offer is less than one in front of it.
abbrev pub IsSorted : (Offer → Offer → Bool) → List Offer → Type 0
IsSorted less [] = Unit {0}
IsSorted less (o ∷ q) = All (λ x. less x o ≡ false) q × IsSorted less q

-- What the documentation of `sort.Slice` says: by any strict weak order, the slice gets sorted.
abbrev pub SortsSlice : SortSlice → Type 0
SortsSlice sort_slice =
    (less : Offer → Offer → Bool)
    → IsWeakOrder less
    → (q : List Offer) → IsSorted less (sort_slice less q)

-- No offer behind the first is cheaper.
abbrev pub IsCheapest : List Offer → Type 0
IsCheapest [] = Unit {0}
IsCheapest (o ∷ q) = All (λ x. o.min_price_per_byte ≤ℤ x.min_price_per_byte) q

-- The events that a worker which waits for a threshold starts on.
pub data Waited : Event → Type 0 where
  another : (o : Offer) → Waited (push_back o)
  late : Waited elapsed

-- A round executes a cheapest offer of those that are there.
abbrev pub Chooses : Worker × Act → Type 0
Chooses (w, executes o) = All (λ x. o.min_price_per_byte ≤ℤ x.min_price_per_byte) w.queue
Chooses (w, finishes _) = Unit {0}
Chooses (w, nothing) = Unit {0}

is_cheaper-IsWeakOrder : IsWeakOrder is_cheaper
unfolding is_cheaper
is_cheaper-IsWeakOrder = record {
  asymmetric = λ a b h. ground arith;
  transitive = λ a b c h k. ground arith;
}

IsSorted-IsCheapest : (q : List Offer) → IsSorted is_cheaper q → IsCheapest q
unfolding is_cheaper
IsSorted-IsCheapest [] s = tt
IsSorted-IsCheapest (o ∷ q) s = above q s.0
  where
    at_least : (x : Offer) → is_cheaper x o ≡ false → o.min_price_per_byte ≤ℤ x.min_price_per_byte
    at_least x h = ltb_ℤ→ge x.min_price_per_byte o.min_price_per_byte h

    above :
        (r : List Offer)
        → All (λ x. is_cheaper x o ≡ false) r
        → All (λ x. o.min_price_per_byte ≤ℤ x.min_price_per_byte) r
    above [] h = tt
    above (x ∷ r) h = (at_least x h.0, above r h.1)

sort_offers-IsCheapest :
    (sort_slice : SortSlice) (q : List Offer)
    → SortsSlice sort_slice
    → IsCheapest (sort_offers sort_slice q)
unfolding sort_offers
sort_offers-IsCheapest sort_slice q sorts =
    IsSorted-IsCheapest (sort_slice is_cheaper q) (sorts is_cheaper is_cheaper-IsWeakOrder q)

start_first-Chooses :
    (q : List Offer) (w w' : Worker) (a : Act)
    → IsCheapest q
    → start_first q w ≡ some (w', a)
    → Chooses (w', a)
unfolding start_first
start_first-Chooses [] w w' a c h = absurd (none≢some h)
start_first-Chooses (o ∷ q) w w' a c h = subst Chooses (eq_of_some h) c

module _ (sort_slice : SortSlice) (sorts : SortsSlice sort_slice) (cfg : Config) where
  -- A worker that waits for a number of offers or for a delay, and executes nothing yet, starts with
  -- an offer that is no more expensive, by the byte, than those that it leaves in its queue, if
  -- `sort.Slice` sorts by a strict weak order.
  pub round-Chooses :
      (e : Event) (w w' : Worker) (a : Act)
      → Waited e
      → is_immediate cfg w.exec_done ≡ false
      → round sort_slice cfg e w ≡ some (w', a)
      → Chooses (w', a)
  unfolding round on_back on_delay threshold
  round-Chooses e w w' a (another o) waits h = elim (Bool-cases (is_dropped cfg o)) [
    | inl dropped ↦ subst Chooses (eq_of_some (rw dropped at h)) tt
    | inr kept ↦
        let q = w.queue ++ (o ∷ []) in
        elim (Bool-cases (is_idle w.exec_done && eq_ℤ (pos (length q)) cfg.num_threshold)) [
          | inl reached ↦
              start_first-Chooses (sort_offers sort_slice q) w w' a
                (sort_offers-IsCheapest sort_slice q sorts)
                (rw reached at (rw waits at (rw kept at h)))
          | inr below ↦ subst Chooses (eq_of_some (rw below at (rw waits at (rw kept at h)))) tt
        ]
  ]
  round-Chooses e w w' a late waits h = elim (Bool-cases (is_idle w.exec_done)) [
    | inl now ↦
        start_first-Chooses (sort_offers sort_slice w.queue) _ w' a
          (sort_offers-IsCheapest sort_slice w.queue sorts) (rw now at h)
    | inr later ↦ subst Chooses (eq_of_some (rw later at h)) tt
  ]

module _ (sort_slice : SortSlice) where
  -- Where the delay passes before an offer has come in, the worker panics.
  pub round_elapsed_empty :
      (cfg : Config) (w : Worker)
      → sort_offers sort_slice [] ≡ []
      → w.exec_done ≡ idle
      → w.queue ≡ []
      → round sort_slice cfg elapsed w ≡ none
  unfolding round on_delay start_first
  round_elapsed_empty cfg w same i e = rw (ap is_idle i) (rw e (rw (same, start_first) refl))

  -- A worker of `SelectFirstLowerThan` passes over an offer that is below the amount, and executes at
  -- once one that is not.
  pub round_lower_than :
      (amount : ℤ) (o : Offer)
      → eq_ℤ amount (negsuc 0) ≡ false
      → round sort_slice
          (select_first_lower_than amount)
          (push_back o)
          (started (select_first_lower_than amount))
        ≡ (if ltb_ℤ o.min_price_per_byte amount
            then some (started (select_first_lower_than amount), nothing)
            else some (
              record (started (select_first_lower_than amount)) { exec_done = busy o },
              executes o,
            ))
  unfolding round on_back
  round_lower_than amount o set = rw set (elim (Bool-cases (ltb_ℤ o.min_price_per_byte amount)) [
    | inl below ↦ rw below refl
    | inr above ↦ rw above refl
  ])
