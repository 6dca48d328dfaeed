-- ===== src/Index/Lfu.antt =====
-- exchange/index.go: the operations of the index on its storage, with the eviction. The mutexes are
-- left out: each operation holds its own throughout.
use Prim.Native.String.{String, ◌++◌ as ◌<>◌}
use mathlib.Core.Option
use go_hop_exchange.Prelude.{
  ℕ, ◌+◌, Bool, true, false, not, ◌&&◌, Option, none, some, List, [], ◌∷◌, ltb, leb, if◌then◌else◌,
  u64, sub_u64, Result, ok, err,
}
use go_hop_exchange.Index.Buckets.{Bucket, rem_blist_entry}
use go_hop_exchange.Index.Refs.{
  DataRef, Storage, Index, find, put, drop, add_all, merge_keys, increment,
}

module _ {W : Type 0} (storage : Storage W) where
  -- `Flush`
  unfoldable pub flush : Index W → Index W × Option String
  flush idx =
      let (w, failed) = storage.flush idx.world in
      elim failed [
        | some e ↦ (record idx { world = w }, some e)
        | none ↦
            let (w', r) = storage.put_root w in
            elim r [
              | err e ↦ (record idx { world = w' }, some e)
              | ok cid ↦
                  let (w'', failed') = storage.put_index w' cid in
                  (record idx { world = w''; root_cid = cid }, failed')
            ]
      ]

  -- `tagForGC`
  unfoldable pub tag_for_gc : ℕ → Index W → Index W × Option String
  unfolding add_all
  tag_for_gc k idx =
      let (cids, failed) = storage.walk idx.world k in
      (record idx { gc_set = add_all cids idx.gc_set }, failed)

  -- One round of the inner loop of `evict`: the error of `tagForGC` is logged only.
  unfoldable pub evict_entry : ℕ → DataRef → Index W → Index W
  unfolding tag_for_gc drop rem_blist_entry
  evict_entry place ref idx =
      let tagged = (tag_for_gc ref.payload_cid idx).0 in
      record tagged {
        refs = drop ref.payload_cid tagged.refs;
        blist = rem_blist_entry place ref.payload_cid tagged.blist;
        size = sub_u64 tagged.size ref.payload_size;
      }

  -- The inner loop over the entries of a bucket, in the order in which the map gives them. The flag
  -- says that enough is evicted.
  unfoldable pub evict_entries : ℕ → ℕ → ℕ → List ℕ → Index W → Bool × ℕ × Index W
  unfolding evict_entry find
  evict_entries size place evicted [] idx = (false, evicted, idx)
  evict_entries size place evicted (k ∷ ks) idx = elim (find k idx.refs) [
    | none ↦ evict_entries size place evicted ks idx
    | some ref ↦
        let idx' = evict_entry place ref idx in
        let evicted' = u64 (evicted + ref.payload_size) in
        elim (leb size evicted') [
          | true ↦ (true, evicted', idx')
          | false ↦ evict_entries size place evicted' ks idx'
        ]
  ]

  -- `evict`: the loop over the buckets. `place.Next()` of an element that was removed is nil, so a
  -- bucket that is emptied ends the loop; only one without entries would be passed over.
  unfoldable pub evict_from : ℕ → List Bucket → Index W → ℕ × Index W
  unfolding evict_entries
  evict_from size [] idx = (0, idx)
  evict_from size (b ∷ bs) idx = elim b.entries [
    | [] ↦ evict_from size bs idx
    | k ∷ ks ↦
        let (enough, evicted, idx') = evict_entries size b.place 0 (k ∷ ks) idx in (evicted, idx')
  ]

  -- `evict`
  unfoldable pub evict : ℕ → Index W → ℕ × Index W
  unfolding evict_from
  evict size idx = evict_from size idx.blist idx

  -- The end of an operation that changed the ref: it is written to the HAMT, which is flushed.
  unfoldable pub persist : ℕ → DataRef → Index W → Index W × Option String
  unfolding flush
  persist k ref idx =
      let (w, failed) = storage.set idx.world k ref in
      elim failed [
        | some e ↦ (record idx { world = w }, some e)
        | none ↦ flush (record idx { world = w })
      ]

  -- The eviction of `SetRef`, if the bounds are set and passed.
  unfoldable pub make_room : Index W → Index W
  unfolding evict
  make_room idx =
      if ltb 0 idx.ub && ltb 0 idx.lb && ltb idx.ub idx.size
      then (evict (sub_u64 idx.size idx.lb) idx).1
      else idx

  -- `SetRef`; an outer `none` is a panic, here and below. The ref that is written is the one that
  -- `increment` changed.
  unfoldable pub set_ref : DataRef → Index W → Option (Index W × Option String)
  unfolding make_room increment persist find put
  set_ref ref idx =
      let k = ref.payload_cid in
      elim (find k idx.refs) [
        | some _ ↦ some (idx, some "ref already exists")
        | none ↦
            let added = record idx {
              refs = put k ref idx.refs;
              size = u64 (idx.size + ref.payload_size);
            } in
            Option.map
              (λ idx'. elim (find k idx'.refs) [
                | none ↦ (idx', none)
                | some placed ↦ persist k placed idx'
              ])
              (increment ref (make_room added))
      ]

  -- `GetRef`
  unfoldable pub get_ref : ℕ → Index W → Option (Index W × Result DataRef)
  unfolding increment persist find
  get_ref k idx = elim (find k idx.refs) [
    | none ↦ some (idx, err "ref not found")
    | some ref ↦
        Option.map
          (λ idx'. elim (find k idx'.refs) [
            | none ↦ (idx', err "ref not found")
            | some placed ↦
                let (idx'', failed) = persist k placed idx' in
                (idx'', elim failed [ some e ↦ err e | none ↦ ok placed ])
          ])
          (increment ref idx)
  ]

  -- The end of `DropRef`, where the ref is known.
  unfoldable pub forget : ℕ → DataRef → Index W → Option (Index W × Option String)
  unfolding tag_for_gc rem_blist_entry drop flush
  forget k ref idx =
      let (tagged, failed) = tag_for_gc ref.payload_cid idx in
      elim failed [
        | some e ↦ some (tagged, some e)
        | none ↦ elim ref.bucket_node [
          | none ↦ none
          | some place ↦ some (
              flush (record tagged {
                blist = rem_blist_entry place ref.payload_cid tagged.blist;
                refs = drop k tagged.refs;
              }))
        ]
      ]

  -- `DropRef`
  unfoldable pub drop_ref : ℕ → Index W → Option (Index W × Option String)
  unfolding forget find
  drop_ref k idx =
      let (w, deleted) = storage.delete idx.world k in
      let idx' = record idx { world = w } in
      elim deleted [
        | err e ↦ some (idx', some e)
        | ok found ↦
            if not found
            then some (idx', some "ref not found")
            else (elim (find k idx'.refs) [ none ↦ none | some ref ↦ forget k ref idx' ])
      ]

  -- `UpdateRef`: the keys are merged into the ref in memory, and the argument is written.
  unfoldable pub update_ref : DataRef → Index W → Index W × Option String
  unfolding persist find put merge_keys
  update_ref ref idx =
      let k = ref.payload_cid in
      elim (find k idx.refs) [
        | none ↦ (idx, some "ref not found")
        | some current ↦ persist k ref (record idx {
          refs =
              put k (record current { keys = merge_keys current.keys current.keys ref.keys })
                idx.refs;
        })
      ]

  -- `gcSet.ForEach(DeleteBlock)`, which ends at the first error.
  unfoldable pub delete_blocks : List ℕ → W → W × Option String
  delete_blocks [] w = (w, none)
  delete_blocks (c ∷ cs) w =
      let (w', failed) = storage.delete_block w c in
      elim failed [ some e ↦ (w', some e) | none ↦ delete_blocks cs w' ]

  -- The end of `GC`, behind the deletion of the blocks.
  unfoldable pub collect : Index W → Index W × Option String
  collect idx =
      if not storage.is_gc_datastore
      then (idx, some "datastore is not a GCDatastore")
      else (let (w, failed) = storage.collect_garbage idx.world in
          (record idx { world = w }, failed))

  -- `GC`
  unfoldable pub gc : Index W → Index W × Option String
  unfolding delete_blocks collect
  gc idx = elim idx.gc_set [
    | [] ↦ (idx, none)
    | c ∷ cs ↦
        if not storage.is_gc_blockstore
        then (idx, some "blockstore is not a GCBlockstore")
        else (let (w, failed) = delete_blocks (c ∷ cs) idx.world in
            elim failed [
              | some e ↦ (record idx { world = w }, some ("failed to run garbage collector: " <> e))
              | none ↦ collect (record idx { world = w; gc_set = [] })
            ])
  ]
