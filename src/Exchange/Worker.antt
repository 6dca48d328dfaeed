-- ===== src/Exchange/Worker.antt =====
-- exchange/tx.go: the worker of a transaction, which queues the offers that come in and executes them
-- one after the other. It is a loop over a `select`; an event is what one round of it receives. What
-- `Close` returns depends on the scheduling of the two go-routines and is left out.
use Prim.Native.String.{String}
use go_hop_exchange.Prelude.{
  ℕ, Bool, true, false, not, ◌&&◌, Option, none, some, List, [], ◌∷◌, ◌++◌, if◌then◌else◌, ℤ, pos,
  negsuc, ltb_ℤ, length,
}
use go_hop_exchange.Payments.Types.{eq_ℤ}
use go_hop_exchange.Deal.Offer.{Offer}

-- `TxResult`; an address that is undefined is `none`.
pub record TxResult : Type 0 where
  pub err : Option String
  pub size : ℕ
  pub spent : ℤ
  pub pay_ch : Option ℕ

-- `TxResult{Err: err}`
abbrev pub failed_with : String → TxResult
failed_with e = record { err = some e; size = 0; spent = pos 0; pay_ch = none }

-- `DealExecParams`
pub record ExecParams : Type 0 where
  pub accepted : Bool
  pub selector : Option ℕ
  pub total_funds : ℤ

-- `OfferExecutor`, over the state of what executes.
pub record OfferExecutor (W : Type 0) : Type 0 where
  pub execute : W → Offer → ExecParams → W × TxResult
  pub confirm : W → Offer → W × ExecParams

-- `exec`
unfoldable pub exec : {W : Type 0} → OfferExecutor W → W → Offer → W × TxResult
exec executor w offer =
    let (w', params) = executor.confirm w offer in
    if params.accepted
    then executor.execute w' offer params
    else (w', failed_with "user denied offer")

-- The thresholds and the ceiling of `sessionWorker`; -1 is none.
pub record Config : Type 0 where
  pub num_threshold : ℤ
  pub time_threshold : ℤ
  pub price_ceiling : ℤ

-- `SelectFirst`, `SelectCheapest` and `SelectFirstLowerThan`
abbrev pub select_first : Config
select_first = record {
  num_threshold = negsuc 0;
  time_threshold = negsuc 0;
  price_ceiling = negsuc 0;
}

abbrev pub select_cheapest : ℤ → ℤ → Config
select_cheapest after t = record {
  num_threshold = after;
  time_threshold = t;
  price_ceiling = negsuc 0;
}

abbrev pub select_first_lower_than : ℤ → Config
select_first_lower_than amount = record {
  num_threshold = negsuc 0;
  time_threshold = negsuc 0;
  price_ceiling = amount;
}

-- `execDone`: nil, or a channel whose result is to come, or one whose result was received.
pub data Exec : Type 0 where
  idle : Exec
  busy : Offer → Exec
  spent : Exec

pub record Worker : Type 0 where
  pub queue : List Offer
  pub exec_done : Exec
  -- Whether the delay is set and has not passed.
  pub delayed : Bool

abbrev pub started : Config → Worker
started cfg = record {
  queue = [];
  exec_done = idle;
  delayed = not (ltb_ℤ cfg.time_threshold (pos 0));
}

pub data Event : Type 0 where
  push_back : Offer → Event
  push_front : Offer → Event
  elapsed : Event
  done : TxResult → Event

-- What a round does besides: it starts the execution of an offer, or finishes the transaction.
pub data Act : Type 0 where
  executes : Offer → Act
  finishes : TxResult → Act
  nothing : Act

abbrev pub is_idle : Exec → Bool
is_idle idle = true
is_idle (busy _) = false
is_idle spent = false

-- An offer that the ceiling passes over.
abbrev pub is_dropped : Config → Offer → Bool
is_dropped cfg o =
    not (eq_ℤ cfg.price_ceiling (negsuc 0)) && ltb_ℤ o.min_price_per_byte cfg.price_ceiling

abbrev pub is_immediate : Config → Exec → Bool
is_immediate cfg e =
    ltb_ℤ cfg.num_threshold (pos 0) && ltb_ℤ cfg.time_threshold (pos 0) && is_idle e

-- The start of the first offer of a queue; `none` is the panic of one that is empty.
unfoldable pub start_first : List Offer → Worker → Option (Worker × Act)
start_first [] w = none
start_first (o ∷ q) w = some (record w { queue = q; exec_done = busy o }, executes o)

-- The same for a queue that may be empty, where nothing is left to do but to finish.
unfoldable pub start_next : TxResult → List Offer → Worker → Worker × Act
start_next res [] w = (record w { queue = []; exec_done = spent }, finishes res)
start_next res (o ∷ q) w = (record w { queue = q; exec_done = busy o }, executes o)

-- `sort.Slice` of the standard library, on offers: the argument tells whether an offer is less than
-- another.
abbrev pub SortSlice : Type 0
SortSlice = (Offer → Offer → Bool) → List Offer → List Offer

-- The comparison of `sortOffers`
unfoldable pub is_cheaper : Offer → Offer → Bool
is_cheaper o p = ltb_ℤ o.min_price_per_byte p.min_price_per_byte

-- `sortOffers`
unfoldable pub sort_offers : SortSlice → List Offer → List Offer
unfolding is_cheaper
sort_offers sort_slice offers = sort_slice is_cheaper offers

module _ (sort_slice : SortSlice) (cfg : Config) where
  -- The end of the round for an offer that is queued.
  unfoldable pub threshold : List Offer → Worker → Option (Worker × Act)
  unfolding start_first sort_offers
  threshold q w =
      if is_idle w.exec_done && eq_ℤ (pos (length q)) cfg.num_threshold
      then start_first (sort_offers sort_slice q) w
      else some (record w { queue = q }, nothing)

  -- `case of := <-s.offersBack`
  unfoldable pub on_back : Offer → Worker → Option (Worker × Act)
  unfolding threshold
  on_back o w =
      if is_dropped cfg o
      then some (w, nothing)
      else if is_immediate cfg w.exec_done
      then some (record w { exec_done = busy o }, executes o)
      else threshold (w.queue ++ (o ∷ [])) w

  -- `case of := <-s.offersFront`
  unfoldable pub on_front : Offer → Worker → Worker × Act
  on_front o w =
      if is_idle w.exec_done
      then (record w { exec_done = busy o }, executes o)
      else (record w { queue = o ∷ w.queue }, nothing)

  -- `case <-delay`
  unfoldable pub on_delay : Worker → Option (Worker × Act)
  unfolding start_first sort_offers
  on_delay w =
      if is_idle w.exec_done
      then start_first (sort_offers sort_slice w.queue) (record w { delayed = false })
      else some (record w { delayed = false }, nothing)

  -- `case res := <-execDone`
  unfoldable pub on_done : TxResult → Worker → Worker × Act
  unfolding start_next
  on_done res w = elim res.err [
    | none ↦ (record w { exec_done = spent }, finishes res)
    | some _ ↦ start_next res w.queue w
  ]

  -- A round of the loop of `Start`; `none` is a panic.
  unfoldable pub round : Event → Worker → Option (Worker × Act)
  unfolding on_back on_front on_delay on_done
  round (push_back o) w = on_back o w
  round (push_front o) w = some (on_front o w)
  round elapsed w = on_delay w
  round (done res) w = some (on_done res w)
