-- ===== src/Tests/Market.antt =====
-- exchange/exchange.go and tx.go: an offer, and the deal that a client asks for.
use Prim.Native.String.{String}
use go_hop_exchange.Prelude.{
  Option, ℕ, ◌≡◌, refl, true, false, none, some, [], pos, ok, arith, Result,
}
use go_hop_exchange.Deal.Status.{accepted, rejected}
use go_hop_exchange.Deal.Offer.{Offer, set_ask}
use go_hop_exchange.Provider.Chart.{ProviderState}
use go_hop_exchange.Provider.Validation.{
  proposal_voucher, check_deal_params, get_store_id, initial_state, answer_to, expected_selector,
  validate_pull,
}
use go_hop_exchange.Index.Refs.{find}
use go_hop_exchange.Index.Lfu.{get_ref}
use go_hop_exchange.Retrieval.Deals.{Purchase, new_params, proposal_of}
use go_hop_exchange.Exchange.Regions.{global, asia}
use go_hop_exchange.Exchange.Worker.{ExecParams}
use go_hop_exchange.Exchange.Market.{Query, Services, Serving, ask_for, answer_query, handle_query}
use go_hop_exchange.Exchange.Executing.{Terms, purchase_for}
use go_hop_exchange.Exchange.Agreement.{offer_accepted, offer_outbid}
use go_hop_exchange.Tests.Indexes.{storage, holding}

abbrev services : Services (Unit {0})
services = record {
  decode_node = λ n. ok n;
  stat = λ w root sel. ok 100;
  all_selector = 1;
  default_address = 2;
}

abbrev query : Query
query = record { payload_cid = 7; piece_cid = none; selector = some 1 }

abbrev serving : Serving (Unit {0})
serving = record { index = holding 0; asks = [] }

abbrev free : Offer
free = ask_for services global 7 100

abbrev priced : Offer
priced = ask_for services asia 7 100

abbrev after_free : Serving (Unit {0})
after_free = record serving { asks = set_ask 7 free [] }

abbrev after_priced : Serving (Unit {0})
after_priced = record serving { asks = set_ask 7 priced (set_ask 7 free []) }

offers : handle_query storage services global query serving ≡ some (after_free, ok free)
unfolding handle_query answer_query get_ref find set_ask
offers = refl

offers_later : handle_query storage services asia query after_free ≡ some (after_priced, ok priced)
unfolding handle_query answer_query get_ref find set_ask
offers_later = refl

abbrev tx : Terms
tx = record { root = 7; sel = some 1; client_addr = 4; store_id = 1; committed = false }

abbrev accepting : ExecParams
accepting = record { accepted = true; selector = none; total_funds = pos 0 }

abbrev encode : ℕ → Result ℕ
encode n = ok n

abbrev buy : Purchase
buy = record {
  root = 7;
  params = record {
    selector = some 1;
    piece_cid = none;
    price_per_byte = pos 0;
    payment_interval = free.max_payment_interval;
    payment_interval_increase = free.max_payment_interval_increase;
    unseal_price = pos 0;
  };
  total_funds = pos 0;
  sender = 5;
  client_addr = 4;
  provider_addr = 2;
  store_id = some 1;
}

buys : purchase_for encode tx free accepting 5 ≡ ok buy
unfolding purchase_for new_params
buys = refl

abbrev tracking : ProviderState → Result (Option String)
tracking d = ok none

offer_accepted_example :
    validate_pull
      (check_deal_params after_free.asks)
      get_store_id
      tracking
      1
      false
      11
      5
      (proposal_voucher (proposal_of 3 buy))
      7
      (ok (expected_selector 1 (proposal_of 3 buy)))
    ≡ record {
      response = some (answer_to (proposal_of 3 buy) accepted "");
      error = none;
      tracked = some (initial_state 11 (proposal_of 3 buy) 5);
    }
offer_accepted_example =
    offer_accepted storage services global query serving after_free free encode tx accepting 5 3 buy
      tracking 1 11 5 offers refl buys refl

offer_outbid_example :
    validate_pull
      (check_deal_params after_priced.asks)
      get_store_id
      tracking
      1
      false
      11
      5
      (proposal_voucher (proposal_of 3 buy))
      7
      (ok (expected_selector 1 (proposal_of 3 buy)))
    ≡ record {
      response = some (answer_to (proposal_of 3 buy) rejected "price per byte too low");
      error = some "price per byte too low";
      tracked = none;
    }
offer_outbid_example =
    offer_outbid storage services global asia query query serving after_free after_free after_priced
      free priced encode tx accepting 5 3 buy tracking 1 11 5 offers offers_later refl (omega arith)
      refl buys
