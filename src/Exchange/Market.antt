-- ===== src/Exchange/Market.antt =====
-- exchange/exchange.go: what a node offers when it is asked for content, and how it gets content that
-- it wants. The decoder of selectors,
-- the size of a DAG and the wallet are arguments.
use Prim.Native.String.{String}
use go_hop_exchange.Prelude.{ℕ, Option, List, none, some, pos, ◌==◌, if◌then◌else◌, Result, ok, err}
use go_hop_exchange.Deal.Offer.{
  Offer, AskStore, set_ask, default_payment_interval, default_payment_interval_increase,
}
use go_hop_exchange.Index.Refs.{Index, Storage}
use go_hop_exchange.Index.Lfu.{set_ref, get_ref}
use go_hop_exchange.Exchange.Regions.{Region}
use go_hop_exchange.Exchange.Worker.{TxResult}
use go_hop_exchange.Exchange.Tx.{data_ref}

-- `deal.Query`
pub record Query : Type 0 where
  pub payload_cid : ℕ
  pub piece_cid : Option ℕ
  pub selector : Option ℕ

-- What the handler calls: `stat` is the size of what a selector takes of a DAG in the blockstore.
pub record Services (W : Type 0) : Type 0 where
  pub decode_node : ℕ → Result ℕ
  pub stat : W → ℕ → ℕ → Result ℕ
  pub all_selector : ℕ
  pub default_address : ℕ

-- The index, and the asks of the provider.
pub record Serving (W : Type 0) : Type 0 where
  pub index : Index W
  pub asks : AskStore

-- The selector that the size is taken of.
abbrev pub stat_selector : {W : Type 0} → Services W → ℕ → ℕ
stat_selector env sel = elim (env.decode_node sel) [ err _ ↦ env.all_selector | ok s ↦ s ]

-- The offer for content of a size, in a region.
abbrev pub ask_for : {W : Type 0} → Services W → Region → ℕ → ℕ → Offer
ask_for env r root size = record {
  id = "";
  peer_addr = 0;
  payload_cid = root;
  size = size;
  payment_address = env.default_address;
  min_price_per_byte = r.ppb;
  max_payment_interval = default_payment_interval;
  max_payment_interval_increase = default_payment_interval_increase;
  unseal_price = pos 0;
}

-- The end of `handleQuery`, with the index after the look-up and the size or the error.
unfoldable pub answer_query :
    {W : Type 0} → Services W → Region → ℕ → Serving W → Result ℕ → Serving W × Result Offer
answer_query env r root s (err e) = (s, err e)
answer_query env r root s (ok size) = if size == 0 then (s, err "content unavailable") else (
  record s { asks = set_ask root (ask_for env r root size) s.asks },
  ok (ask_for env r root size),
)

-- `handleQuery`; `none` is the panic of the index.
unfoldable pub handle_query :
    {W : Type 0}
    → Storage W
    → Services W
    → Region
    → Query
    → Serving W
    → Option (Serving W × Result Offer)
unfolding answer_query
handle_query st env r q s = elim (get_ref st q.payload_cid s.index) [
  | none ↦ none
  | some (idx, _) ↦
      let s' = record s { index = idx } in
      elim q.selector [
        | none ↦ some (s', err "no selector provided")
        | some sel ↦ some (
            answer_query env r q.payload_cid s'
              (env.stat idx.world q.payload_cid (stat_selector env sel)))
      ]
]

-- `FindAndRetrieve`: `failed` is the error of the query, `res` the result of the transaction, or `none`
-- where the context is done first, and `ks` the keys of the root in the store of the transaction. The
-- content that was retrieved gets into the index.
unfoldable pub find_and_retrieve :
    {W : Type 0}
    → Storage W
    → Option String
    → Option TxResult
    → Result (List ℕ)
    → ℕ
    → Index W
    → Option (Index W × Option String)
unfolding set_ref
find_and_retrieve st (some e) res ks root idx = some (idx, some e)
find_and_retrieve st none none ks root idx = some (idx, some "context canceled")
find_and_retrieve st none (some res) ks root idx = elim res.err [
  | some e ↦ some (idx, some e)
  | none ↦ elim ks [
    | err e ↦ some (idx, some e)
    | ok keys ↦ set_ref st (data_ref root res.size keys) idx
  ]
]
