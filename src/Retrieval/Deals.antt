-- ===== src/Retrieval/Deals.antt =====
-- retrieval/manager.go: the deals of a client. The group of state machines and the multistore are an
-- argument, over a state of theirs.
use Prim.Native.String.{String}
use go_hop_exchange.Prelude.{
  ℕ, ◌+◌, Bool, true, false, Option, none, some, List, [], ◌∷◌, ◌==◌, if◌then◌else◌, ℤ, pos, u64,
  Result, ok, err,
}
use go_hop_exchange.Deal.Status.{new, insufficient_funds, same_status}
use go_hop_exchange.Deal.Params.{Params, Proposal}
use go_hop_exchange.Client.Chart.{ClientState, Event, open_deal, recheck_funds}

-- `NewParams` of retrieval/deal/types.go: `encode` is the encoder of selectors.
unfoldable pub new_params : (ℕ → Result ℕ) → ℤ → ℕ → ℕ → Option ℕ → Option ℕ → ℤ → Result Params
new_params encode price interval increase none piece unseal = err "selector required"
new_params encode price interval increase (some sel) piece unseal = elim (encode sel) [
  | err e ↦ err e
  | ok raw ↦ ok (record {
    selector = some raw;
    piece_cid = piece;
    price_per_byte = price;
    payment_interval = interval;
    payment_interval_increase = increase;
    unseal_price = unseal;
  })
]

-- `counter.next`
abbrev pub next : ℕ → ℕ
next val = u64 (val + 1)

-- What the client uses.
pub record Machines (W : Type 0) : Type 0 where
  pub begin : W → ℕ → ClientState → W × Option String
  pub send : W → ℕ → Event → W × Option String
  pub list : W → Result (List ClientState)
  pub load_store : W → ℕ → Option String

-- What a client asks for.
pub record Purchase : Type 0 where
  pub root : ℕ
  pub params : Params
  pub total_funds : ℤ
  pub sender : ℕ
  pub client_addr : ℕ
  pub provider_addr : ℕ
  pub store_id : Option ℕ

abbrev pub proposal_of : ℕ → Purchase → Proposal
proposal_of id p = record { payload_cid = p.root; id = id; params = p.params }

-- The state that `Retrieve` begins with.
unfoldable pub new_deal : ℕ → Purchase → ClientState
new_deal id p = record {
  proposal = proposal_of id p;
  store_id = p.store_id;
  channel_id = 0;
  last_payment_requested = false;
  all_blocks_received = false;
  total_funds = p.total_funds;
  client_wallet = p.client_addr;
  miner_wallet = p.provider_addr;
  payment_info = none;
  status = new;
  sender = p.sender;
  total_received = 0;
  message = "";
  bytes_paid_for = 0;
  current_interval = p.params.payment_interval;
  payment_requested = pos 0;
  funds_spent = pos 0;
  unseal_funds_paid = pos 0;
  wait_msg_cid = none;
  voucher_shortfall = pos 0;
}

module _ {W : Type 0} (m : Machines W) where
  -- Whether the store is there, where one is given.
  abbrev pub store_error : W → Option ℕ → Option String
  store_error w none = none
  store_error w (some sid) = m.load_store w sid

  -- The end of `Retrieve`.
  unfoldable pub begin_deal : W → ℕ → Purchase → W × Result ℕ
  unfolding new_deal
  begin_deal w id p =
      let (w1, e1) = m.begin w id (new_deal id p) in
      elim e1 [
        | some e ↦ (w1, err e)
        | none ↦
            let (w2, e2) = m.send w1 id open_deal in (w2, elim e2 [ some e ↦ err e | none ↦ ok id ])
      ]

  -- `Retrieve`, with the counter.
  unfoldable pub retrieve : W → ℕ → Purchase → W × ℕ × Result ℕ
  unfolding begin_deal
  retrieve w counter p =
      let id = next counter in
      elim (store_error w p.store_id) [
        | some e ↦ (w, id, err e)
        | none ↦ let (w', r) = begin_deal w id p in (w', id, r)
      ]

  -- Whether a deal waits for funds in a channel; a deal without payment information is a panic, `none`.
  unfoldable pub waits_for : ℕ → ClientState → Option Bool
  waits_for ch d =
      if same_status d.status insufficient_funds
      then (elim d.payment_info [ none ↦ none | some info ↦ some (info.pay_ch == ch) ])
      else some false

  -- The loop of `TryRestartInsufficientFunds`, which ends at the first error.
  unfoldable pub restart_each : ℕ → List ClientState → W → Option (W × Option String)
  unfolding waits_for
  restart_each ch [] w = some (w, none)
  restart_each ch (d ∷ ds) w = elim (waits_for ch d) [
    | none ↦ none
    | some false ↦ restart_each ch ds w
    | some true ↦
        let (w', e) = m.send w d.id recheck_funds in
        elim e [ some e ↦ some (w', some e) | none ↦ restart_each ch ds w' ]
  ]

  -- `TryRestartInsufficientFunds`
  unfoldable pub try_restart_insufficient_funds : W → ℕ → Option (W × Option String)
  unfolding restart_each
  try_restart_insufficient_funds w ch = elim (m.list w) [
    | err e ↦ some (w, some e)
    | ok ds ↦ restart_each ch ds w
  ]
