-- ===== src/Index/Loading.antt =====
-- exchange/index.go: the index as `NewIndex` loads it, and the lists that are read off it.
use go_hop_exchange.Prelude.{
  ℕ, ◌+◌, ◌<◌, ◌≡◌, true, false, List, [], ◌∷◌, ◌++◌, ltb, ◌==◌, if◌then◌else◌, u64, arith,
  Bool-cases, inl, inr, some,
}
use go_hop_exchange.Index.Buckets.{Bucket, Placed, enter, behind, insert}
use go_hop_exchange.Index.Refs.{DataRef, Index, put}
use go_hop_exchange.Index.Order.{IsOrdered, Above, insert-IsFull, Above-mono}

abbrev pub bucket_of : ℕ → ℕ → ℕ → Bucket
bucket_of fresh id k = record { place = fresh; id = id; entries = k ∷ [] }

-- An entry is put to the bucket of its frequency, or to a new one before the first that is higher.
unfoldable pub place_at : ℕ → ℕ → ℕ → List Bucket → Placed
unfolding insert
place_at fresh id k [] = record { id = id; place = fresh; buckets = bucket_of fresh id k ∷ [] }
place_at fresh id k (b ∷ bs) =
    let rest = place_at fresh id k bs in
    if b.id == id
    then record { id = id; place = b.place; buckets = enter k b ∷ bs }
    else if ltb id b.id
    then record { id = id; place = fresh; buckets = bucket_of fresh id k ∷ b ∷ bs }
    else behind b rest

-- One ref of the loop of `NewIndex`.
unfoldable pub load_ref : {W : Type 0} → DataRef → Index W → Index W
unfolding place_at put
load_ref v idx =
    let p = place_at idx.fresh v.bucket_id v.payload_cid idx.blist in
    record idx {
      refs = put v.payload_cid (record v { bucket_node = some p.place }) idx.refs;
      size = u64 (idx.size + v.payload_size);
      blist = p.buckets;
      fresh = idx.fresh + 1;
    }

-- `NewIndex` behind `loadFromStore`, over the refs in the order in which the HAMT gives them.
unfoldable pub load_all : {W : Type 0} → List DataRef → Index W → Index W
unfolding load_ref
load_all [] idx = idx
load_all (v ∷ vs) idx = load_all vs (load_ref v idx)

-- `ListRefs`: the entries of the buckets, in their order, less the bookkeeping of the slice.
unfoldable pub list_entries : List Bucket → List ℕ
list_entries [] = []
list_entries (b ∷ bs) = b.entries ++ list_entries bs

place_at-Above :
    (n fresh id k : ℕ) (bs : List Bucket)
    → n < id
    → Above n bs
    → Above n (place_at fresh id k bs).buckets
unfolding place_at
place_at-Above n fresh id k [] h a = (h, tt)
place_at-Above n fresh id k (b ∷ bs) h a = elim (Bool-cases (b.id == id)) [
  | inl same ↦ rw same a
  | inr other ↦ elim (Bool-cases (ltb id b.id)) [
    | inl lower ↦ rw (other, lower) (h, a)
    | inr higher ↦ rw (other, higher) (a.0, place_at-Above n fresh id k bs h a.1)
  ]
]

higher_id : (a b : ℕ) → (b == a) ≡ false → ltb a b ≡ false → b < a
higher_id a b h k = ground arith

lower_id : (a b : ℕ) → ltb a b ≡ true → a < b
lower_id a b h = ground arith

pub place_at-IsOrdered :
    (fresh id k : ℕ) (bs : List Bucket) → IsOrdered bs → IsOrdered (place_at fresh id k bs).buckets
unfolding place_at
place_at-IsOrdered fresh id k [] o = (tt, tt, tt)
place_at-IsOrdered fresh id k (b ∷ bs) o = elim (Bool-cases (b.id == id)) [
  | inl same ↦ rw same (insert-IsFull k b.entries, o.1, o.2)
  | inr other ↦ elim (Bool-cases (ltb id b.id)) [
    | inl lower ↦
        let l = lower_id id b.id lower in
        rw (other, lower) (tt, (l, Above-mono id b.id bs (omega arith) o.1), o)
    | inr higher ↦
        rw (other, higher)
          (
            o.0,
            place_at-Above b.id fresh id k bs (higher_id id b.id other higher) o.1,
            place_at-IsOrdered fresh id k bs o.2,
          )
  ]
]

-- An index that is loaded from its HAMT has its buckets in order, whatever the order of the refs.
load_all-IsOrdered :
    {W : Type 0} (vs : List DataRef) (idx : Index W)
    → IsOrdered idx.blist
    → IsOrdered (load_all vs idx).blist
unfolding load_all load_ref
load_all-IsOrdered [] idx o = o
load_all-IsOrdered (v ∷ vs) idx o =
    load_all-IsOrdered vs (load_ref v idx)
      (place_at-IsOrdered idx.fresh v.bucket_id v.payload_cid idx.blist o)
