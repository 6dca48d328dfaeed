-- ===== src/Exchange/Receiving.antt =====
-- exchange/replication.go: how a cache receives content that is dispatched to it, and how it retrieves
-- what is of interest. The transfers and the stores are arguments, over the state that the index is on.
use Prim.Native.String.{String}
use go_hop_exchange.Prelude.{ℕ, Option, none, some, List, [], ◌∷◌, Result, ok, err}
use go_hop_exchange.Index.Refs.{DataRef, Storage, Index}
use go_hop_exchange.Index.Lfu.{set_ref, get_ref, drop_ref}
use go_hop_exchange.Index.Interest.{Interest, drop_interest}
use go_hop_exchange.Exchange.Tx.{data_ref}
use go_hop_exchange.Exchange.Replication.{
  dispatch, fetch_index, other_method, Request, TransferStatus, failed_transfer, cancelled_transfer,
  completed_transfer, going_on, add_store, get_store,
}

-- What `handleRequest` calls: the multistore with its next id and the loading and the removal of a
-- store, the transfer with what its channel says one call after the other, the keys of a root in a
-- store, and the copy of the blocks of a store to that of the node.
pub record Transfers (W : Type 0) : Type 0 where
  pub next_store : ℕ
  pub load_store : ℕ → Result ℕ
  pub open_channel : ℕ → Request → Result (List (Result TransferStatus))
  pub loadable_keys : Option ℕ → ℕ → Result (List ℕ)
  pub migrate : W → Option ℕ → W
  pub delete_store : W → ℕ → W

-- How the polling of a transfer ends.
pub data Ending : Type 0 where
  unknown : Ending
  broken : Ending
  complete : Ending

-- The loop of `handleRequest`; `none` is a loop that goes on.
unfoldable pub poll_transfer : List (Result TransferStatus) → Option Ending
poll_transfer [] = none
poll_transfer (err e ∷ rest) = some unknown
poll_transfer (ok (failed_transfer m) ∷ rest) = some broken
poll_transfer (ok (cancelled_transfer m) ∷ rest) = some broken
poll_transfer (ok completed_transfer ∷ rest) = some complete
poll_transfer (ok going_on ∷ rest) = poll_transfer rest

-- The index and the stores of roots.
pub record Cache (W : Type 0) : Type 0 where
  pub index : Index W
  pub stores : List (ℕ × ℕ)

module _ {W : Type 0} (st : Storage W) (env : Transfers W) where
  -- The ref of the content; where its keys are not loaded it has none.
  abbrev pub received_ref : Request → List (ℕ × ℕ) → DataRef
  received_ref req stores =
      data_ref req.payload_cid req.size
        (elim (env.loadable_keys (get_store req.payload_cid stores) req.payload_cid) [
          | err e ↦ []
          | ok ks ↦ ks
        ])

  -- The end of a transfer that is complete, whose errors are logged only. A store that is not there is a
  -- panic, `none`, as is that of the index, here and below.
  unfoldable pub take_in : Request → ℕ → Cache W → Option (Cache W)
  unfolding set_ref
  take_in req sid c = elim (get_store req.payload_cid c.stores) [
    | none ↦ none
    | some store ↦ elim (set_ref st (received_ref req c.stores) c.index) [
      | none ↦ none
      | some (idx, e) ↦ some (record c {
        index = record idx { world = env.delete_store (env.migrate idx.world (some store)) sid };
      })
    ]
  ]

  -- The end of a transfer.
  unfoldable pub end_transfer : Request → ℕ → Cache W → Ending → Option (Cache W)
  unfolding drop_ref take_in
  end_transfer req sid c unknown = some c
  end_transfer req sid c broken = elim (drop_ref st req.payload_cid c.index) [
    | none ↦ none
    | some (idx, e) ↦ some (record c { index = idx })
  ]
  end_transfer req sid c complete = take_in req sid c

  -- The transfer of content that the index does not have. The result is the cache, or `none` inside for
  -- a transfer that goes on.
  unfoldable pub pull_content : ℕ → Request → Cache W → Option (Option (Cache W))
  unfolding add_store end_transfer poll_transfer
  pull_content p req c = elim (add_store env.load_store req.payload_cid env.next_store c.stores) [
    | err e ↦ some (some c)
    | ok stores ↦
        let c' = record c { stores = stores } in
        elim (env.open_channel p req) [
          | err e ↦ some (some c')
          | ok states ↦ elim (poll_transfer states) [
            | none ↦ some none
            | some ending ↦ elim (end_transfer req env.next_store c' ending) [
              | none ↦ none
              | some c'' ↦ some (some c'')
            ]
          ]
        ]
  ]

  -- `handleRequest`, for a request that was read.
  unfoldable pub handle_request : ℕ → Request → Cache W → Option (Option (Cache W))
  unfolding get_ref pull_content
  handle_request p req c = elim req.method [
    | fetch_index ↦ some (some c)
    | other_method ↦ some (some c)
    | dispatch ↦ elim (get_ref st req.payload_cid c.index) [
      | none ↦ none
      | some (idx, ok _) ↦ some (some (record c { index = idx }))
      | some (idx, err _) ↦ pull_content p req (record c { index = idx })
    ]
  ]

-- The loop of `refreshIndex` over the refs that are of interest, in the order in which Go goes through
-- the map: what is retrieved is dropped from the list of interests and announced, whatever the drop
-- gives; `find_and_retrieve` is `FindAndRetrieve` with its error. `none` is a panic.
unfoldable pub refresh_each :
    {W : Type 0}
    → (W → ℕ → W × Option String)
    → List ℕ
    → W
    → Interest
    → Option (W × Interest × List ℕ)
unfolding drop_interest
refresh_each find_and_retrieve [] w i = some (w, i, [])
refresh_each find_and_retrieve (k ∷ ks) w i =
    let (w', e) = find_and_retrieve w k in
    elim e [
      | some e ↦ refresh_each find_and_retrieve ks w' i
      | none ↦ elim (drop_interest k i) [
        | none ↦ none
        | some dropped ↦
            let i' : Interest = elim dropped [ err e ↦ i | ok i' ↦ i' ] in
            elim (refresh_each find_and_retrieve ks w' i') [
              | none ↦ none
              | some (w'', i'', announced) ↦ some (w'', i'', k ∷ announced)
            ]
      ]
    ]
