-- ===== src/Index/Interest.antt =====
-- exchange/index.go: the list of content that other nodes have and this one may want. Its entries are
-- buckets too, the id of one is the frequency of its refs.
use go_hop_exchange.Prelude.{
  ℕ, ◌+◌, ◌≡◌, refl, Bool, true, false, Option, none, some, List, [], ◌∷◌, ◌++◌, ltb, leb, ◌==◌,
  if◌then◌else◌, u64, Result, ok, err,
}
use mathlib.Core.Option
use go_hop_exchange.Index.Buckets.{Bucket, Placed, behind, back, rem_blist_entry}
use go_hop_exchange.Index.Refs.{DataRef, Index, find, put, drop, available}
use go_hop_exchange.Index.Loading.{place_at}

pub record Interest : Type 0 where
  pub freqs : List Bucket
  pub fresh : ℕ
  pub refs : List (ℕ × DataRef)

-- The walk of `LoadInterest` from the element of a ref on.
unfoldable pub place_from : ℕ → ℕ → ℕ → ℕ → List Bucket → Option Placed
unfolding place_at
place_from fresh freq k place [] = none
place_from fresh freq k place (b ∷ bs) =
    let rest = place_from fresh freq k place bs in
    if b.place == place then some (place_at fresh freq k (b ∷ bs)) else Option.map (behind b) rest

abbrev pub listed : DataRef → ℕ → Placed → Interest → DataRef
listed ref freq p i = record ref { freq = freq; bucket_node = some p.place }

-- A ref of `LoadInterest` that is in the list: the frequencies add up, and it moves; `none` is a panic.
unfoldable pub raise_interest : DataRef → DataRef → Interest → Option Interest
unfolding place_from rem_blist_entry put
raise_interest v ref i = if ref.freq + v.freq == ref.freq then some i else (elim ref.bucket_node [
  | none ↦ none
  | some place ↦
      Option.map
        (λ p. record i {
          freqs = rem_blist_entry place ref.payload_cid p.buckets;
          fresh = i.fresh + 1;
          refs = put ref.payload_cid (listed ref (ref.freq + v.freq) p i) i.refs;
        })
        (place_from i.fresh (ref.freq + v.freq) ref.payload_cid place i.freqs)
])

-- A ref of `LoadInterest` that is new.
unfoldable pub new_interest : DataRef → Interest → Interest
unfolding place_at put
new_interest v i =
    let p = place_at i.fresh v.freq v.payload_cid i.freqs in
    record i {
      freqs = p.buckets;
      fresh = i.fresh + 1;
      refs = put v.payload_cid (listed v v.freq p i) i.refs;
    }

module _ {W : Type 0} (idx : Index W) where
  -- The callback of `LoadInterest`: content that the index has is passed over.
  unfoldable pub load_one : DataRef → Interest → Option Interest
  unfolding find raise_interest new_interest
  load_one v i = elim (find v.payload_cid idx.refs) [
    | some _ ↦ some i
    | none ↦ elim (find v.payload_cid i.refs) [
      | some ref ↦ raise_interest v ref i
      | none ↦ some (new_interest v i)
    ]
  ]

  -- `LoadInterest`, over the refs of a root.
  unfoldable pub load_interest : List DataRef → Interest → Option Interest
  unfolding load_one
  load_interest [] i = some i
  load_interest (v ∷ vs) i = elim (load_one v i) [ none ↦ none | some i' ↦ load_interest vs i' ]

-- Refs until their sizes reach what is free; the flag says whether they do.
unfoldable pub fill : ℕ → ℕ → List ℕ → List (ℕ × DataRef) → List ℕ → Bool × ℕ × List ℕ
unfolding find
fill av added out refs [] = (false, added, out)
fill av added out refs (k ∷ ks) = elim (find k refs) [
  | none ↦ fill av added out refs ks
  | some ref ↦
      let added' = u64 (added + ref.payload_size) in
      elim (leb av added') [
        | true ↦ (true, added', out ++ (k ∷ []))
        | false ↦ fill av added' (out ++ (k ∷ [])) refs ks
      ]
]

-- The buckets from the back of the list on.
unfoldable pub from_back : List Bucket → List Bucket
from_back [] = []
from_back (b ∷ bs) = from_back bs ++ (b ∷ [])

unfoldable pub fill_all : ℕ → ℕ → List ℕ → List (ℕ × DataRef) → List Bucket → List ℕ
unfolding fill
fill_all av added out refs [] = out
fill_all av added out refs (b ∷ bs) =
    let (enough, added', out') = fill av added out refs b.entries in
    elim enough [ true ↦ out' | false ↦ fill_all av added' out' refs bs ]

-- Whether the bucket holds a ref that is read less often.
unfoldable pub has_colder : ℕ → List (ℕ × DataRef) → List ℕ → Bool
unfolding find
has_colder freq refs [] = false
has_colder freq refs (k ∷ ks) = elim (find k refs) [
  | none ↦ has_colder freq refs ks
  | some ref ↦ elim (ltb ref.freq freq) [ true ↦ true | false ↦ has_colder freq refs ks ]
]

abbrev pub head : List ℕ → Result (List ℕ)
head [] = err "nothing interesting"
head (k ∷ ks) = ok (k ∷ [])

-- The end of `Interesting`, where the store is full: the first ref of the most popular bucket, if the
-- front bucket of the index has a colder one. `none` is the panic of a front that is nil.
unfoldable pub swap_in : {W : Type 0} → Index W → Option Bucket → Option (Result (List ℕ))
unfolding has_colder
swap_in idx none = some (err "nothing interesting")
swap_in idx (some hot) = elim idx.blist [
  | [] ↦ none
  | front ∷ _ ↦ some (
      if has_colder hot.id idx.refs front.entries
      then head hot.entries
      else err "nothing interesting")
]

-- `Interesting`
unfoldable pub interesting : {W : Type 0} → Index W → Interest → Option (Result (List ℕ))
unfolding available fill_all from_back swap_in back
interesting idx i =
    if ltb 0 (available idx)
    then some (ok (fill_all (available idx) 0 [] i.refs (from_back i.freqs)))
    else swap_in idx (back i.freqs)

-- `DropInterest`
unfoldable pub drop_interest : ℕ → Interest → Option (Result Interest)
unfolding find drop rem_blist_entry
drop_interest k i = elim (find k i.refs) [
  | none ↦ some (err "ref not found")
  | some ref ↦ elim ref.bucket_node [
    | none ↦ none
    | some place ↦
        some (ok (record i { refs = drop k i.refs; freqs = rem_blist_entry place k i.freqs }))
  ]
]

-- An index without content and without capacity panics when it is asked for what is interesting, as
-- soon as there is an entry in the list of interests.
interesting_empty :
    {W : Type 0} (idx : Index W) (i : Interest) (hot : Bucket)
    → available idx ≡ 0
    → idx.blist ≡ []
    → back i.freqs ≡ some hot
    → interesting idx i ≡ none
unfolding interesting swap_in
interesting_empty idx i hot full empty some_interest =
    rw full (rw some_interest (rw (empty, swap_in) refl))
