-- ===== src/Exchange/Agreement.antt =====
-- exchange/exchange.go and tx.go with retrieval/validators.go: what a node offers, and what it takes
-- when a client asks for it.
use Prim.Native.String.{String}
use go_hop_exchange.Prelude.{
  Option, ℕ, ◌≡◌, ap, sym, ◌∙◌, subst, false, Bool-cases, none, some, Option-cases, eq_of_some,
  none≢some, eq_of_ok, err≢ok, Result-cases, inl, inr, ◌<ℤ◌, ◌==◌, ==_self, Result, ok, err, arith,
}
use go_hop_exchange.Deal.Status.{accepted, rejected}
use go_hop_exchange.Deal.Offer.{Offer, AskStore, set_ask, get_ask}
use go_hop_exchange.Provider.Chart.{ProviderState}
use go_hop_exchange.Provider.Validation.{
  proposal_voucher, check_deal_params, get_store_id, initial_state, answer_to, expected_selector,
  validate_pull,
}
use go_hop_exchange.Provider.Acceptance.{Meets, validate_pull_rejects, validate_pull_accepts}
use go_hop_exchange.Index.Refs.{Storage}
use go_hop_exchange.Index.Lfu.{get_ref}
use go_hop_exchange.Retrieval.Deals.{new_params, Purchase, proposal_of}
use go_hop_exchange.Exchange.Regions.{Region}
use go_hop_exchange.Exchange.Worker.{ExecParams}
use go_hop_exchange.Exchange.Market.{
  Query, Services, Serving, ask_for, answer_query, handle_query, stat_selector,
}
use go_hop_exchange.Exchange.Executing.{Terms, selector_for, purchase_for}

-- What an offer leaves behind.
pub record Offered {W : Type 0} (env : Services W) (r : Region) (q : Query) (s' : Serving W)
    (of : Offer) : Type 0 where
  pub size : ℕ
  pub terms : of ≡ ask_for env r q.payload_cid size
  pub asked : get_ask q.payload_cid s'.asks ≡ of

module _ {W : Type 0} (st : Storage W) (env : Services W) (r : Region) where
  answer_query-Offered :
      (q : Query) (s s' : Serving W) (of : Offer) (a : Result ℕ)
      → answer_query env r q.payload_cid s a ≡ (s', ok of)
      → Offered env r q s' of
  unfolding answer_query get_ask set_ask
  answer_query-Offered q s s' of (err e) h = absurd (err≢ok (ap (λ p. p.1) h))
  answer_query-Offered q s s' of (ok size) h = elim (Bool-cases (size == 0)) [
    | inl empty ↦ absurd (err≢ok (ap (λ p. p.1) (rw (empty, answer_query) at h)))
    | inr full ↦ record {
      size = size;
      terms = sym (eq_of_ok (ap (λ p. p.1) (rw (full, answer_query) at h)));
      asked =
          subst (λ (v : Serving W). get_ask q.payload_cid v.asks ≡ of)
            (ap (λ v. v.0) (rw (full, answer_query) at h))
            (rw (==_self q.payload_cid) (eq_of_ok (ap (λ v. v.1) (rw (full, answer_query) at h))));
    }
  ]

  handle_query-Offered :
      (q : Query) (s s' : Serving W) (of : Offer)
      → handle_query st env r q s ≡ some (s', ok of)
      → Offered env r q s' of
  unfolding handle_query
  handle_query-Offered q s s' of h = elim (Option-cases (get_ref st q.payload_cid s.index)) [
    | inl panics ↦ absurd (none≢some (rw (panics, handle_query) at h))
    | inr ((idx, found), e) ↦ elim (Option-cases q.selector) [
      | inl missing ↦
          absurd (err≢ok (ap (λ v. v.1) (eq_of_some (rw (e, handle_query, missing) at h))))
      | inr (sel, given) ↦
          answer_query-Offered q (record s { index = idx }) s' of
            (env.stat idx.world q.payload_cid (stat_selector env sel))
            (eq_of_some (rw (e, handle_query, given) at h))
    ]
  ]

module _ (encode : ℕ → Result ℕ) (tx : Terms) (of : Offer) (p : ExecParams) (peer id : ℕ) where
  -- The content and the terms are those of the transaction and of the offer.
  purchase_for_terms :
      (buy : Purchase)
      → purchase_for encode tx of p peer ≡ ok buy
      → (buy.root ≡ tx.root)
        × (buy.params.price_per_byte ≡ of.min_price_per_byte)
        × (buy.params.payment_interval ≡ of.max_payment_interval)
        × (buy.params.payment_interval_increase ≡ of.max_payment_interval_increase)
  unfolding purchase_for new_params
  purchase_for_terms buy h = elim (Option-cases (selector_for tx p)) [
    | inl missing ↦ absurd (err≢ok (rw (missing, purchase_for) at h))
    | inr (sel, given) ↦ elim (Result-cases (encode sel)) [
      | inl (e, bad) ↦ absurd (err≢ok (rw (given, purchase_for, bad) at h))
      | inr (raw, good) ↦
          let e = eq_of_ok (rw (given, purchase_for, good) at h) in
          (
            sym (ap (λ b. b.root) e),
            sym (ap (λ b. b.params.price_per_byte) e),
            sym (ap (λ b. b.params.payment_interval) e),
            sym (ap (λ b. b.params.payment_interval_increase) e),
          )
    ]
  ]

  purchase_for-Meets :
      (asks : AskStore) (buy : Purchase)
      → get_ask buy.root asks ≡ of
      → purchase_for encode tx of p peer ≡ ok buy
      → Meets asks (proposal_of id buy)
  purchase_for-Meets asks buy asked h =
      let (root, price, interval, increase) = purchase_for_terms buy h in
      record {
        price = rw (asked, price) (omega arith);
        interval = rw (asked, interval) (omega arith);
        increase = rw (asked, increase) (omega arith);
      }

-- A provider accepts what a transaction asks for on the grounds of an offer that the provider made:
-- the handler of a query offers content and remembers the ask, `Execute` takes the parameters of the
-- deal from the offer, and the provider takes a pull request with them, for the content and the
-- selector of the deal, with an answer that accepts it, if its state machines take the deal.
pub offer_accepted :
    {W : Type 0} (st : Storage W) (env : Services W) (r : Region) (q : Query) (s s' : Serving W)
    (of : Offer) (encode : ℕ → Result ℕ) (tx : Terms) (p : ExecParams) (peer id : ℕ)
    (buy : Purchase) (begin_tracking : ProviderState → Result (Option String))
    (all_selector chid receiver : ℕ)
    → handle_query st env r q s ≡ some (s', ok of)
    → tx.root ≡ q.payload_cid
    → purchase_for encode tx of p peer ≡ ok buy
    → begin_tracking (initial_state chid (proposal_of id buy) receiver) ≡ ok none
    → validate_pull
        (check_deal_params s'.asks)
        get_store_id
        begin_tracking
        all_selector
        false
        chid
        receiver
        (proposal_voucher (proposal_of id buy))
        q.payload_cid
        (ok (expected_selector all_selector (proposal_of id buy)))
      ≡ record {
        response = some (answer_to (proposal_of id buy) accepted "");
        error = none;
        tracked = some (initial_state chid (proposal_of id buy) receiver);
      }
offer_accepted st env r q s s' of encode tx p peer id buy begin_tracking all_selector chid receiver
      offered same bought begun =
    let left = handle_query-Offered st env r q s s' of offered in
    let root = (purchase_for_terms encode tx of p peer id buy bought).0 ∙ same in
    validate_pull_accepts s'.asks begin_tracking all_selector chid receiver q.payload_cid
      (proposal_of id buy) root
      (purchase_for-Meets encode tx of p peer id s'.asks buy (rw root left.asked) bought) begun

-- A provider keeps one ask for each content id. When content was offered in one region and is then
-- offered in a region with a higher price, what a client asks for on the grounds of the first offer
-- is refused, with the answer that its price is too low, and no deal is tracked.
pub offer_outbid :
    {W : Type 0} (st : Storage W) (env : Services W) (r r' : Region) (q q' : Query)
    (s s1 s1' s2 : Serving W) (of of' : Offer) (encode : ℕ → Result ℕ) (tx : Terms) (p : ExecParams)
    (peer id : ℕ) (buy : Purchase) (begin_tracking : ProviderState → Result (Option String))
    (all_selector chid receiver : ℕ)
    → handle_query st env r q s ≡ some (s1, ok of)
    → handle_query st env r' q' s1' ≡ some (s2, ok of')
    → q'.payload_cid ≡ q.payload_cid
    → r.ppb <ℤ r'.ppb
    → tx.root ≡ q.payload_cid
    → purchase_for encode tx of p peer ≡ ok buy
    → validate_pull
        (check_deal_params s2.asks)
        get_store_id
        begin_tracking
        all_selector
        false
        chid
        receiver
        (proposal_voucher (proposal_of id buy))
        q.payload_cid
        (ok (expected_selector all_selector (proposal_of id buy)))
      ≡ record {
        response = some (answer_to (proposal_of id buy) rejected "price per byte too low");
        error = some "price per byte too low";
        tracked = none;
      }
offer_outbid st env r r' q q' s s1 s1' s2 of of' encode tx p peer id buy begin_tracking all_selector
      chid receiver offered later again dearer same bought =
    let first = handle_query-Offered st env r q s s1 of offered in
    let second = handle_query-Offered st env r' q' s1' s2 of' later in
    let (root, price, _, _) = purchase_for_terms encode tx of p peer id buy bought in
    validate_pull_rejects s2.asks begin_tracking all_selector chid receiver q.payload_cid
      (proposal_of id buy) (root ∙ same)
      (rw (root ∙ same, price, first.terms, rw again at second.asked, second.terms) dearer)
