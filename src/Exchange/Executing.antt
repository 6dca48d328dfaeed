-- ===== src/Exchange/Executing.antt =====
-- exchange/tx.go: how a transaction executes an offer, and asks the user before. What is published
-- about deals while it waits is a list of deals; at its end the context of the transaction is done.
use go_hop_exchange.Prelude.{
  ℕ, Bool, true, false, Option, none, some, List, [], ◌∷◌, ℤ, pos, Result, ok, err,
}
use mathlib.Core.Option
use go_hop_exchange.Deal.Status.{Status, completed, cancelled, errored, status_name}
use go_hop_exchange.Deal.Offer.{Offer, retrieval_price}
use go_hop_exchange.Client.Chart.{ClientState}
use go_hop_exchange.Retrieval.Deals.{new_params, Machines, Purchase, retrieve}
use go_hop_exchange.Exchange.Worker.{TxResult, failed_with, ExecParams}

-- What a transaction retrieves with.
pub record Terms : Type 0 where
  pub root : ℕ
  pub sel : Option ℕ
  pub client_addr : ℕ
  pub store_id : ℕ
  pub committed : Bool

-- The subscriber of `Execute`: the result that it takes from the state of a deal.
unfoldable pub result_of : Status → ClientState → Option TxResult
result_of completed d = some (record {
  err = none;
  size = d.total_received;
  spent = d.funds_spent;
  pay_ch = Option.map (λ info. info.pay_ch) d.payment_info;
})
result_of cancelled d = some (failed_with (status_name cancelled))
result_of errored d = some (failed_with (status_name errored))
result_of _ d = none

-- The result that the wait of `Execute` ends with.
unfoldable pub await : List ClientState → TxResult
unfolding result_of
await [] = failed_with "context canceled"
await (d ∷ ds) = elim (result_of d.status d) [ some r ↦ r | none ↦ await ds ]

-- The selector, with that of the query as its default.
abbrev pub selector_for : Terms → ExecParams → Option ℕ
selector_for tx p = elim p.selector [ none ↦ tx.sel | some s ↦ some s ]

-- What `Execute` asks the retriever for: the parameters are those of the offer.
unfoldable pub purchase_for : (ℕ → Result ℕ) → Terms → Offer → ExecParams → ℕ → Result Purchase
unfolding new_params
purchase_for encode tx of p peer =
    elim (new_params encode of.min_price_per_byte of.max_payment_interval
      of.max_payment_interval_increase (selector_for tx p) none of.unseal_price) [
        | err e ↦ err e
        | ok params ↦ ok (record {
          root = tx.root;
          params = params;
          total_funds = p.total_funds;
          sender = peer;
          client_addr = tx.client_addr;
          provider_addr = of.payment_address;
          store_id = some tx.store_id;
        })
      ]

-- The transaction after a result: one without an error is committed.
abbrev pub settle : Terms → TxResult → Terms
settle tx r = elim r.err [ none ↦ record tx { committed = true } | some _ ↦ tx ]

-- The end of `Execute`: the retrieval, and the wait if it began.
unfoldable pub run_purchase :
    {W : Type 0}
    → Machines W
    → Terms
    → W
    → ℕ
    → Purchase
    → List ClientState
    → W × ℕ × Terms × TxResult
unfolding retrieve await
run_purchase m tx w counter p published =
    let (w', counter', r) = retrieve m w counter p in
    elim r [
      | err e ↦ (w', counter', tx, failed_with e)
      | ok id ↦ (w', counter', settle tx (await published), await published)
    ]

-- `Execute`; `addr_info` reads the address of an offer.
unfoldable pub execute :
    {W : Type 0}
    → Machines W
    → (ℕ → Result ℕ)
    → (ℕ → Result ℕ)
    → Terms
    → W
    → ℕ
    → Offer
    → ExecParams
    → List ClientState
    → W × ℕ × Terms × TxResult
unfolding purchase_for run_purchase
execute m addr_info encode tx w counter of p published = elim (addr_info of.peer_addr) [
  | err e ↦ (w, counter, tx, failed_with e)
  | ok peer ↦ elim (purchase_for encode tx of p peer) [
    | err e ↦ (w, counter, tx, failed_with e)
    | ok purchase ↦ run_purchase m tx w counter purchase published
  ]
]

-- What a user answers to an offer: a call of `Exec` with its parameters, or of `Next`.
pub data Reply : Type 0 where
  exec_with : Option ℕ → Option ℤ → Reply
  next_offer : Reply

abbrev pub declined : ExecParams
declined = record { accepted = false; selector = none; total_funds = pos 0 }

-- `DealSel` and `DealFunds`, as they are applied by `Exec`; and `Next`.
unfoldable pub reply_params : Offer → Reply → ExecParams
unfolding retrieval_price
reply_params of next_offer = declined
reply_params of (exec_with sel funds) = record {
  accepted = true;
  selector = sel;
  total_funds = elim funds [ none ↦ retrieval_price of | some amount ↦ amount ];
}

-- `Confirm`: `triage` is whether a user is asked, and `reply` what comes before the context is done.
unfoldable pub confirm : Terms → Bool → Offer → Option Reply → ExecParams
unfolding reply_params retrieval_price
confirm tx true of none = declined
confirm tx true of (some r) = reply_params of r
confirm tx false of reply = record {
  accepted = true;
  selector = tx.sel;
  total_funds = retrieval_price of;
}
