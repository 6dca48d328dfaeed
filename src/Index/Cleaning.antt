-- ===== src/Index/Cleaning.antt =====
-- exchange/index.go: `CleanBlockStore`, which deletes the blocks that no ref of the index has. A content
-- id is a codec with a hash here, since the code changes the codec; the stores, the walk over a DAG and
-- the iteration over the HAMT are arguments, over the state of the stores.
use Prim.Native.String.{String}
use go_hop_exchange.Prelude.{
  ℕ, ◌≡◌, refl, ap, sym, ◌∙◌, subst, ◌⊎◌, Any, true≢false, ==_iff, Bool, true, false, ◌&&◌, Option,
  none, some, List, [], ◌∷◌, ◌++◌, ◌==◌, if◌then◌else◌, Bool-cases, Option-cases, inl, inr, Result,
  ok, err,
}

pub record Cid : Type 0 where
  pub codec : ℕ
  pub hash : ℕ

-- `cid.DagCBOR`
abbrev pub dag_cbor : ℕ
dag_cbor = 113

abbrev pub as_dag_cbor : Cid → Cid
as_dag_cbor k = record { codec = dag_cbor; hash = k.hash }

-- The set of content ids.
unfoldable pub has_cid : Cid → List Cid → Bool
has_cid k [] = false
has_cid k (c ∷ cs) = if c.codec == k.codec && c.hash == k.hash then true else has_cid k cs

pub record Blocks (B : Type 0) : Type 0 where
  -- The roots of the refs of the HAMT, or the error of reading one.
  pub for_each : B → List (Result Cid)
  -- The blocks that a walk over a DAG visits, and its error, if there is one.
  pub walk : B → Cid → List Cid × Option String
  pub all_keys : B → Result (List Cid)
  pub delete_block : B → Cid → B × Option String
  pub is_gc_datastore : Bool
  pub collect_garbage : B → B × Option String

module _ {B : Type 0} (st : Blocks B) where
  -- The iteration over the refs, up to its first error.
  unfoldable pub visit_refs : B → List (Result Cid) → List Cid → List Cid × Option String
  visit_refs b [] set = (set, none)
  visit_refs b (err e ∷ refs) set = (set, some e)
  visit_refs b (ok k ∷ refs) set =
      let (visited, e) = st.walk b k in
      elim e [ some e ↦ (visited ++ set, some e) | none ↦ visit_refs b refs (visited ++ set) ]

  -- The loop over the keys of the blocks.
  unfoldable pub delete_unvisited : List Cid → List Cid → B → B × Option String
  unfolding has_cid
  delete_unvisited set [] b = (b, none)
  delete_unvisited set (k ∷ ks) b =
      let kept = delete_unvisited set ks b in
      if has_cid (as_dag_cbor k) set
      then kept
      else (let (b', e) = st.delete_block b k in
          elim e [ some e ↦ (b', some e) | none ↦ delete_unvisited set ks b' ])

  -- The end of `CleanBlockStore`
  unfoldable pub collect_after : B × Option String → B × Option String
  collect_after (b, some e) = (b, some e)
  collect_after (b, none) =
      if st.is_gc_datastore
      then st.collect_garbage b
      else (b, some "datastore is not a GCDatastore")

  -- `CleanBlockStore`
  unfoldable pub clean_block_store : B → B × Option String
  unfolding visit_refs delete_unvisited collect_after
  clean_block_store b =
      let (set, e) = visit_refs b (st.for_each b) [] in
      elim e [
        | some e ↦ (b, some e)
        | none ↦ elim (st.all_keys b) [
          | err e ↦ (b, some e)
          | ok ks ↦ collect_after (delete_unvisited set ks b)
        ]
      ]

-- A content id that was visited with the codec of DAG-CBOR, 113, and the hash of the key.
abbrev pub IsSeen : Cid → Cid → Type 0
IsSeen k c = (c.codec ≡ 113) × (c.hash ≡ k.hash)

-- What a cleaning deletes of the keys, in their order: those that were not visited so.
pub data Stale (set : List Cid) : List Cid → List Cid → Type 0 where
  no_keys : Stale set [] []
  keeps :
      {ks stale : List Cid} (k : Cid)
      → Any (IsSeen k) set
      → Stale set ks stale
      → Stale set (k ∷ ks) stale
  drops :
      {ks stale : List Cid} (k : Cid)
      → ¬ Any (IsSeen k) set
      → Stale set ks stale
      → Stale set (k ∷ ks) (k ∷ stale)

has_cid-IsSeen :
    (k : Cid) (set : List Cid) → has_cid (as_dag_cbor k) set ≡ true → Any (IsSeen k) set
unfolding has_cid
has_cid-IsSeen k [] h = absurd (true≢false (sym h))
has_cid-IsSeen k (c ∷ set) h = elim (Bool-cases (c.codec == 113)) [
  | inr other ↦ inr (has_cid-IsSeen k set (rw (other, has_cid) at h))
  | inl cbor ↦ elim (Bool-cases (c.hash == k.hash)) [
    | inl same ↦ inl ((==_iff _ _).0 cbor, (==_iff _ _).0 same)
    | inr other ↦ inr (has_cid-IsSeen k set (rw (cbor, has_cid, other) at h))
  ]
]

has_cid_unseen :
    (k : Cid) (set : List Cid) → has_cid (as_dag_cbor k) set ≡ false → ¬ Any (IsSeen k) set
unfolding has_cid
has_cid_unseen k [] h n = absurd n
has_cid_unseen k (c ∷ set) h (inl (cbor, same)) =
    true≢false (sym (rw ((==_iff _ _).1 cbor, has_cid, (==_iff _ _).1 same)) ∙ h)
has_cid_unseen k (c ∷ set) h (inr n) = elim (Bool-cases (c.codec == 113)) [
  | inr other ↦ has_cid_unseen k set (rw (other, has_cid) at h) n
  | inl cbor ↦ elim (Bool-cases (c.hash == k.hash)) [
    | inl same ↦ true≢false (rw (cbor, has_cid, same) at h)
    | inr other ↦ has_cid_unseen k set (rw (cbor, has_cid, other) at h) n
  ]
]

module _ {B : Type 0} (st : Blocks B) where
  -- The walks over the refs, all of which succeed, and the content ids that they visit.
  pub data Walks (b : B) : List (Result Cid) → List Cid → List Cid → Type 0 where
    walked_all : {set : List Cid} → Walks b [] set set
    walks :
        {refs : List (Result Cid)} {set all : List Cid} (k : Cid) (visited : List Cid)
        → st.walk b k ≡ (visited, none)
        → Walks b refs (visited ++ set) all
        → Walks b (ok k ∷ refs) set all

  visit_refs-Walks :
      (b : B) (refs : List (Result Cid)) (set all : List Cid)
      → Walks b refs set all
      → visit_refs st b refs set ≡ (all, none)
  unfolding visit_refs
  visit_refs-Walks b [] set all walked_all = refl
  visit_refs-Walks b (err e ∷ refs) set all w = elim w [ ]
  visit_refs-Walks b (ok k ∷ refs) set all (walks _ visited e rest) =
      let same : (st.walk b k).0 ≡ visited = ap (λ r. r.0) e in
      let whole : (st.walk b k).1 ≡ none = ap (λ r. r.1) e in
      rw (whole, visit_refs, same) (visit_refs-Walks b refs (visited ++ set) all rest)

  -- Blocks that are deleted one after the other, up to the first error.
  abbrev pub delete_all : List Cid → B → B × Option String
  delete_all [] b = (b, none)
  delete_all (k ∷ ks) b =
      let (b', e) = st.delete_block b k in
      elim e [ some e ↦ (b', some e) | none ↦ delete_all ks b' ]

  delete_unvisited-all :
      (set ks : List Cid) (b : B)
      → (stale : List Cid) × Stale set ks stale
        × ((b : B) → delete_unvisited st set ks b ≡ delete_all stale b)
  unfolding delete_unvisited
  delete_unvisited-all set [] b = ([], no_keys, λ b. refl)
  delete_unvisited-all set (k ∷ ks) b =
      let (stale, rest, same) = delete_unvisited-all set ks b in
      elim (Bool-cases (has_cid (as_dag_cbor k) set)) [
        | inl kept ↦ (
          stale,
          keeps k (has_cid-IsSeen k set kept) rest,
          λ b. rw (kept, delete_unvisited) (same b),
        )
        | inr gone ↦ (
          k ∷ stale,
          drops k (has_cid_unseen k set gone) rest,
          λ b. elim (Option-cases (st.delete_block b k).1) [
            | inr (e, failed) ↦ rw (gone, delete_unvisited, delete_all, failed) refl
            | inl deleted ↦
                rw (gone, delete_unvisited, delete_all, deleted) (same (st.delete_block b k).0)
          ],
        )
      ]

  -- The outcome of a cleaning: the error of deleting a block, or what collecting the garbage says,
  -- or that there is no way to collect it.
  abbrev pub Cleaned : B × Option String → B × Option String → Type 0
  Cleaned deleted result =
      ((e : String) × (deleted.1 ≡ some e) × (result ≡ (deleted.0, some e)))
      ⊎ ((deleted.1 ≡ none) × (st.is_gc_datastore ≡ true) × (result ≡ st.collect_garbage deleted.0))
      ⊎ ((deleted.1 ≡ none)
          × (st.is_gc_datastore ≡ false)
          × (result ≡ (deleted.0, some "datastore is not a GCDatastore")))

  collect_after-Cleaned : (r : B × Option String) → Cleaned r (collect_after st r)
  unfolding collect_after
  collect_after-Cleaned (b, some e) = inl (e, refl, refl)
  collect_after-Cleaned (b, none) = elim (Bool-cases st.is_gc_datastore) [
    | inl gc ↦ inr (inl (refl, gc, rw (gc, collect_after) refl))
    | inr other ↦ inr (inr (refl, other, rw (other, collect_after) refl))
  ]

  -- If the walks over all refs succeed, `CleanBlockStore` deletes, in their order and up to the first
  -- error, the blocks whose hash was not visited with the codec of DAG-CBOR, and then collects the
  -- garbage: a block of a ref that was visited with another codec only is deleted as well.
  pub clean_block_store-unvisited :
      (b : B) (set ks : List Cid)
      → Walks b (st.for_each b) [] set
      → st.all_keys b ≡ ok ks
      → (stale : List Cid) × Stale set ks stale
        × Cleaned (delete_all stale b) (clean_block_store st b)
  unfolding clean_block_store
  clean_block_store-unvisited b set ks walked listed =
      let visited = visit_refs-Walks b (st.for_each b) [] set walked in
      let seen : (visit_refs st b (st.for_each b) []).0 ≡ set = ap (λ r. r.0) visited in
      let whole : (visit_refs st b (st.for_each b) []).1 ≡ none = ap (λ r. r.1) visited in
      let (stale, is_stale, same) = delete_unvisited-all set ks b in
      let e : clean_block_store st b ≡ collect_after st (delete_all stale b) =
        rw (whole, clean_block_store, listed, seen) (ap (collect_after st) (same b)) in
      (
        stale,
        is_stale,
        subst (Cleaned (delete_all stale b)) (sym e) (collect_after-Cleaned (delete_all stale b)),
      )
