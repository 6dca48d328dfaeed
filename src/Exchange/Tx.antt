-- ===== src/Exchange/Tx.antt =====
-- exchange/tx.go: a transaction, its entries and its stores. The rest of its fields are in
-- Exchange/Worker.antt and Exchange/Executing.antt.
use Prim.Native.String.{String}
use package.text.Mathlib.Text.{◌==◌ as ◌=s=◌}
use mathlib.Core.List.{map}
use go_hop_exchange.Prelude.{
  ℕ, Bool, true, false, Option, none, some, List, [], ◌∷◌, if◌then◌else◌, ltb, Result, ok, err,
  and_then,
}
use go_hop_exchange.Index.Refs.{DataRef, Storage, Index, has}
use go_hop_exchange.Index.Lfu.{get_ref}
use go_hop_exchange.Exchange.Keyed.{at_key, with_key}
use go_hop_exchange.Exchange.Entries.{
  Entry, EntryMap, Ipld, build_root, root_for, entries, map_loadable_keys,
}

-- A transaction over stores `S` and the storage `W` of the index; `store` is its own store, in the
-- multistore by `store_id`, and `bs` that of the node.
pub record Tx (S W : Type 0) : Type 0 where
  pub entry_map : EntryMap
  pub root : ℕ
  pub size : ℕ
  pub store : S
  pub store_id : ℕ
  pub bs : S
  pub index : Index W
  pub cache_rf : ℕ
  pub committed : Bool
  pub closed : Bool
  pub error : Option String

-- What a transaction uses of its packages: the files of a DAG, the bytes of a key, the copy of the
-- blocks of one store to another with its error, that of the blocks of the entries, and the multistore,
-- whose state is a part of `S`.
pub record Files (N S F : Type 0) : Type 0 where
  pub ipld : Ipld N S
  pub unix_file : S → ℕ → Result F
  pub key_bytes : String → ℕ
  pub migrate_blocks : S → S → S × Option String
  pub migrate_entries : S → S → ℕ → S × Option String
  pub is_gc_blockstore : Bool
  pub delete_store : ℕ → Option String

abbrev pub has_entries : EntryMap → Bool
has_entries [] = false
has_entries (e ∷ es) = true

-- The ref of content that is not in the index yet.
abbrev pub data_ref : ℕ → ℕ → List ℕ → DataRef
data_ref root size ks = record {
  payload_cid = root;
  payload_size = size;
  keys = ks;
  freq = 0;
  bucket_id = 0;
  bucket_node = none;
}

module _ {N S F W : Type 0} (fs : Files N S F) (st : Storage W) where
  -- `Put`, with its error.
  unfoldable pub put : String → ℕ → ℕ → Tx S W → Tx S W × Option String
  unfolding with_key build_root
  put key value size tx =
      let es = with_key key (record { key = key; value = value; size = size }) tx.entry_map in
      let (s, built) = build_root fs.ipld es tx.store in
      elim built [
        | err e ↦ (record tx { entry_map = es; store = s }, some e)
        | ok (root, total) ↦
            (record tx { entry_map = es; store = s; root = root; size = total }, none)
      ]

  -- `Status`
  unfoldable pub status : Tx S W → Result EntryMap
  status tx = elim tx.error [ some e ↦ err e | none ↦ ok tx.entry_map ]

  -- `Ref`
  unfoldable pub ref : Tx S W → Tx S W × DataRef
  unfolding map_loadable_keys
  ref tx =
      if has_entries tx.entry_map
      then (tx, data_ref tx.root tx.size (map (λ e. fs.key_bytes e.0) tx.entry_map))
      else (elim (map_loadable_keys fs.ipld tx.store tx.root) [
        | err e ↦ (record tx { error = some e }, data_ref tx.root tx.size [])
        | ok ks ↦ (tx, data_ref tx.root tx.size (map fs.key_bytes ks))
      ])

  -- The look-up of the root in the index, and the store that its error decides; `none` is the panic of
  -- the index, here and below.
  unfoldable pub choose_store : Tx S W → Option (Tx S W × S)
  unfolding get_ref
  choose_store tx = elim (get_ref st tx.root tx.index) [
    | none ↦ none
    | some (idx, found) ↦
        some (record tx { index = idx }, elim found [ ok _ ↦ tx.bs | err _ ↦ tx.store ])
  ]

  -- `loadFileEntry`
  unfoldable pub load_file_entry : S → ℕ → String → Result F
  unfolding root_for
  load_file_entry s root k = and_then (root_for fs.ipld s root k) (fs.unix_file s)

  -- `GetFile`
  unfoldable pub get_file : String → Tx S W → Option (Tx S W × Result F)
  unfolding at_key choose_store load_file_entry
  get_file k tx = elim (at_key k tx.entry_map) [
    | some e ↦ some (tx, fs.unix_file tx.store e.value)
    | none ↦ elim (choose_store tx) [
      | none ↦ none
      | some (tx', s) ↦ some (tx', load_file_entry s tx.root k)
    ]
  ]

  -- `RootFor`, `Entries` and, for a transaction without entries, `Keys`
  unfoldable pub tx_root_for : String → Tx S W → Option (Tx S W × Result ℕ)
  unfolding choose_store
  tx_root_for key tx = elim (choose_store tx) [
    | none ↦ none
    | some (tx', s) ↦ some (tx', root_for fs.ipld s tx.root key)
  ]

  unfoldable pub tx_entries : Tx S W → Option (Tx S W × Result (List Entry))
  unfolding choose_store
  tx_entries tx = elim (choose_store tx) [
    | none ↦ none
    | some (tx', s) ↦ some (tx', entries fs.ipld s tx.root)
  ]

  unfoldable pub keys : Tx S W → Option (Tx S W × Result (List String))
  unfolding choose_store
  keys tx =
      if has_entries tx.entry_map
      then some (tx, ok (map (λ e. e.0) tx.entry_map))
      else (elim (choose_store tx) [
        | none ↦ none
        | some (tx', s) ↦ some (tx', map_loadable_keys fs.ipld s tx.root)
      ])

  -- `IsLocal`
  unfoldable pub is_local : String → Tx S W → Option (Tx S W × Bool)
  unfolding at_key get_ref has
  is_local key tx = elim (at_key key tx.entry_map) [
    | some _ ↦ some (tx, true)
    | none ↦ elim (get_ref st tx.root tx.index) [
      | none ↦ none
      | some (idx, err _) ↦ some (record tx { index = idx }, false)
      | some (idx, ok r) ↦ some (
          let tx' = record tx { index = idx } in
          if key =s= ""
          then (tx', true)
          else if has r (fs.key_bytes key)
          then (tx', true)
          else (record tx' { store = (fs.migrate_entries tx.bs tx.store tx.root).0 }, false))
    ]
  ]

  -- `Commit`: what is dispatched, if anything is, is the root with the size and the factor, out of the
  -- store of the transaction; `dispatch` is the error of `Dispatch`.
  unfoldable pub commit :
      (ℕ → ℕ → ℕ → ℕ → Option String) → Tx S W → Tx S W × Result (Option (ℕ × ℕ × ℕ))
  commit dispatch tx = elim tx.error [
    | some e ↦ (tx, err e)
    | none ↦
        let tx' = record tx { committed = true } in
        if ltb 0 tx.cache_rf
        then (elim (dispatch tx.root tx.size tx.cache_rf tx.store_id) [
          | some e ↦ (tx', err e)
          | none ↦ (tx', ok (some (tx.root, tx.size, tx.cache_rf)))
        ])
        else (tx', ok none)
  ]

  -- `dumpStore`
  unfoldable pub dump_store : Tx S W → Tx S W × Option String
  dump_store tx =
      if tx.committed
      then if fs.is_gc_blockstore
        then (let (bs, failed) = fs.migrate_blocks tx.store tx.bs in
            (
              record tx { bs = bs },
              elim failed [ some e ↦ some e | none ↦ fs.delete_store tx.store_id ],
            ))
        else (tx, some "blockstore is not a GCBlockstore")
      else (tx, fs.delete_store tx.store_id)

  -- `Close`, less the worker and the subscription.
  unfoldable pub close : Tx S W → Tx S W × Option String
  unfolding dump_store
  close tx =
      if tx.closed
      then (tx, tx.error)
      else (let (tx', failed) = dump_store (record tx { closed = true }) in
          (tx', elim failed [ some e ↦ some e | none ↦ tx.error ]))
