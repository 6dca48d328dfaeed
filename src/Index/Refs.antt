-- ===== src/Index/Refs.antt =====
-- exchange/index.go: the refs of the index, and the operations that use no other package. `Storage`
-- is what the index uses of other packages, over a state of theirs: the HAMT of refs, the stores that
-- it is flushed to, the walk over a DAG, the deletion of blocks.
use Prim.Native.String.{String}
use mathlib.Core.Option
use go_hop_exchange.Prelude.{
  ℕ, ◌+◌, Bool, true, false, Option, none, some, List, [], ◌∷◌, ◌++◌, ltb, ◌==◌, if◌then◌else◌,
  sub_u64, Result, ok, err, length,
}
use go_hop_exchange.Index.Buckets.{Bucket, Placed, contains, insert, place_new, promote}

pub record DataRef : Type 0 where
  pub payload_cid : ℕ
  pub payload_size : ℕ
  pub keys : List ℕ
  pub freq : ℕ
  pub bucket_id : ℕ
  pub bucket_node : Option ℕ

unfoldable pub has : DataRef → ℕ → Bool
unfolding contains
has d key = contains key d.keys

pub record Storage (W : Type 0) : Type 0 where
  pub set : W → ℕ → DataRef → W × Option String
  pub delete : W → ℕ → W × Result Bool
  pub flush : W → W × Option String
  pub put_root : W → W × Result ℕ
  pub put_index : W → ℕ → W × Option String
  -- The content ids that a walk over a DAG visits, and its error, if there is one.
  pub walk : W → ℕ → List ℕ × Option String
  pub delete_block : W → ℕ → W × Option String
  pub collect_garbage : W → W × Option String
  -- Whether the two stores can collect garbage.
  pub is_gc_blockstore : Bool
  pub is_gc_datastore : Bool

-- `fresh` is the next list element. The map `Refs` is an association list, which has a key once.
pub record Index (W : Type 0) : Type 0 where
  pub world : W
  pub ub : ℕ
  pub lb : ℕ
  pub gc_set : List ℕ
  pub size : ℕ
  pub blist : List Bucket
  pub fresh : ℕ
  pub refs : List (ℕ × DataRef)
  pub root_cid : ℕ

unfoldable pub find : ℕ → List (ℕ × DataRef) → Option DataRef
find k [] = none
find k ((j, r) ∷ m) = if j == k then some r else find k m

-- `Refs[k] = ref`
unfoldable pub put : ℕ → DataRef → List (ℕ × DataRef) → List (ℕ × DataRef)
put k ref [] = (k, ref) ∷ []
put k ref ((j, r) ∷ m) = let rest = put k ref m in if j == k then (k, ref) ∷ m else (j, r) ∷ rest

-- `delete(Refs, k)`
unfoldable pub drop : ℕ → List (ℕ × DataRef) → List (ℕ × DataRef)
drop k [] = []
drop k ((j, r) ∷ m) = let rest = drop k m in if j == k then rest else (j, r) ∷ rest

unfoldable pub add_all : List ℕ → List ℕ → List ℕ
unfolding insert
add_all [] s = s
add_all (x ∷ xs) s = add_all xs (insert x s)

-- The keys of the second list that the first does not hold, behind it.
unfoldable pub merge_keys : List ℕ → List ℕ → List ℕ → List ℕ
unfolding contains
merge_keys seen out [] = out
merge_keys seen out (k ∷ ks) = merge_keys seen (if contains k seen then out else out ++ (k ∷ [])) ks

-- The change that `increment` makes to the ref that was placed.
abbrev pub placed_ref : Bool → Placed → DataRef → DataRef
placed_ref moved p ref = record ref {
  freq = if moved then ref.freq + 1 else ref.freq;
  bucket_id = p.id;
  bucket_node = some p.place;
}

module _ {W : Type 0} where
  -- `Available`
  unfoldable pub available : Index W → ℕ
  available idx =
      let margin = sub_u64 idx.ub idx.lb in
      if ltb (sub_u64 idx.ub idx.size) margin then 0 else sub_u64 idx.ub idx.size

  -- `Len`
  abbrev pub len : Index W → ℕ
  len idx = length idx.refs

  -- `PeekRef`
  unfoldable pub peek_ref : Index W → ℕ → Result DataRef
  unfolding find
  peek_ref idx k = elim (find k idx.refs) [ none ↦ err "ref not found" | some r ↦ ok r ]

  -- `increment`: the ref is one of `Refs`, so the change is one to the map.
  unfoldable pub increment : DataRef → Index W → Option (Index W)
  unfolding place_new promote put
  increment ref idx = elim ref.bucket_node [
    | none ↦
        let p = place_new idx.fresh ref.payload_cid idx.blist in
        some (record idx {
          blist = p.buckets;
          fresh = idx.fresh + 1;
          refs = put ref.payload_cid (placed_ref false p ref) idx.refs;
        })
    | some place ↦
        Option.map
          (λ p. record idx {
            blist = p.buckets;
            fresh = idx.fresh + 1;
            refs = put ref.payload_cid (placed_ref true p ref) idx.refs;
          })
          (promote idx.fresh ref.payload_cid place idx.blist)
  ]
