-- ===== src/Provider/Acceptance.antt =====
-- Which pull requests a provider takes: `ValidatePull` of retrieval/validators.go with the checks of
-- retrieval/environments.go.
use Prim.Native.String.{String}
use mathlib.Core.HLevel.{Unit-prop}
use go_hop_exchange.Prelude.{
  ℕ, ◌≤◌, ◌≡◌, refl, sym, ap, ◌∙◌, inl, inr, Bool, true, false, Option, none, some, arith, ◌≤ℤ◌,
  ◌<ℤ◌, ◌==◌, ==_iff, ==_self, Result, Result-cases, ok, err, Bool-cases, eq_of_some, none≢some,
}
use go_hop_exchange.Deal.Status.{Status, accepted, rejected}
use go_hop_exchange.Deal.Params.{Proposal, next_loop}
use go_hop_exchange.Deal.Intervals.{next_loop_stuck}
use go_hop_exchange.Deal.Offer.{AskStore, get_ask}
use go_hop_exchange.Provider.Chart.{ProviderState}
use go_hop_exchange.Provider.Validation.{
  RequestVoucher, proposal_voucher, other_voucher, check_deal_params, get_store_id, accept_deal,
  initial_state, conclude, begin_deal, answer_to, expected_selector, validate_pull,
}

-- The terms of a proposal stay within the ask for its content.
pub record Meets (asks : AskStore) (p : Proposal) : Type 0 where
  pub price : (get_ask p.payload_cid asks).min_price_per_byte ≤ℤ p.price_per_byte
  pub interval : p.payment_interval ≤ (get_ask p.payload_cid asks).max_payment_interval
  pub increase :
      p.payment_interval_increase ≤ (get_ask p.payload_cid asks).max_payment_interval_increase

check-Meets :
    (asks : AskStore) (chid receiver : ℕ) (p : Proposal)
    → check_deal_params asks (initial_state chid p receiver) ≡ ok tt
    → Meets asks p
unfolding check_deal_params
check-Meets asks chid receiver p h = ground arith

Meets-check :
    (asks : AskStore) (chid receiver : ℕ) (p : Proposal)
    → Meets asks p
    → check_deal_params asks (initial_state chid p receiver) ≡ ok tt
unfolding check_deal_params
Meets-check asks chid receiver p h = ground arith

check_cheap :
    (asks : AskStore) (chid receiver : ℕ) (p : Proposal)
    → p.price_per_byte <ℤ (get_ask p.payload_cid asks).min_price_per_byte
    → check_deal_params asks (initial_state chid p receiver) ≡ err "price per byte too low"
unfolding check_deal_params
check_cheap asks chid receiver p cheap = ground arith

module _ (asks : AskStore) (begin_tracking : ProviderState → Result (Option String))
    (chid receiver : ℕ) (p : Proposal) where
  accept_deal_rejects :
      (e : String)
      → check_deal_params asks (initial_state chid p receiver) ≡ err e
      → accept_deal (check_deal_params asks) get_store_id (initial_state chid p receiver)
        ≡ (rejected, some e, initial_state chid p receiver)
  unfolding accept_deal
  accept_deal_rejects e h = rw (h, accept_deal)

  accept_deal_accepts :
      (u : Unit {0})
      → check_deal_params asks (initial_state chid p receiver) ≡ ok u
      → accept_deal (check_deal_params asks) get_store_id (initial_state chid p receiver)
        ≡ (accepted, none, initial_state chid p receiver)
  unfolding accept_deal get_store_id
  accept_deal_accepts u h = rw (h, accept_deal)

  conclude-tracked :
      (s d : ProviderState) → (conclude begin_tracking (accepted, none, s)).tracked ≡ some d → d ≡ s
  unfolding conclude
  conclude-tracked s d h = elim (Result-cases (begin_tracking s)) [
    | inl (e, lost) ↦ absurd (none≢some (rw (lost, conclude) at h))
    | inr (some e, begun) ↦ sym (eq_of_some (rw (begun, conclude) at h))
    | inr (none, begun) ↦ sym (eq_of_some (rw (begun, conclude) at h))
  ]

  begin_deal-tracked :
      (d : ProviderState)
      → (begin_deal
          (check_deal_params asks)
          get_store_id
          begin_tracking
          (initial_state chid p receiver)).tracked
        ≡ some d
      → Meets asks p × (d ≡ initial_state chid p receiver)
  unfolding begin_deal
  begin_deal-tracked d h =
      let s = initial_state chid p receiver in
      let end =
        λ (q : Status × Option String × ProviderState). (conclude begin_tracking q).tracked in
      elim (Result-cases (check_deal_params asks s)) [
        | inl (e, bad) ↦ absurd (none≢some (sym (ap end (accept_deal_rejects e bad)) ∙ h))
        | inr (u, good) ↦ (
          check-Meets asks chid receiver p (good ∙ ap ok (Unit-prop u tt)),
          conclude-tracked s d (sym (ap end (accept_deal_accepts u good)) ∙ h),
        )
      ]

  begin_deal_accepts :
      Meets asks p
      → begin_tracking (initial_state chid p receiver) ≡ ok none
      → begin_deal
          (check_deal_params asks)
          get_store_id
          begin_tracking
          (initial_state chid p receiver)
        ≡ record {
          response = some (answer_to p accepted "");
          error = none;
          tracked = some (initial_state chid p receiver);
        }
  unfolding begin_deal
  begin_deal_accepts meets begun =
      ap (conclude begin_tracking) (accept_deal_accepts tt (Meets-check asks chid receiver p meets))
      ∙ rw (begun, conclude)

module _ (asks : AskStore) (begin_tracking : ProviderState → Result (Option String))
    (all_selector chid receiver base_cid : ℕ) where
  -- A provider tracks a deal only for a proposal of the requested content whose selector is the
  -- requested one and whose price and intervals stay within the ask, on a request that is no
  -- restart; and the deal starts at its first interval with nothing sent and nothing received.
  pub validate_pull-tracked :
      (is_restart : Bool) (voucher : RequestVoucher) (selector : Result ℕ) (d : ProviderState)
      → (validate_pull
          (check_deal_params asks)
          get_store_id
          begin_tracking
          all_selector
          is_restart
          chid
          receiver
          voucher
          base_cid
          selector).tracked
        ≡ some d
      → (p : Proposal) × (voucher ≡ proposal_voucher p)
        × (p.payload_cid ≡ base_cid)
        × (selector ≡ ok (expected_selector all_selector p))
        × (is_restart ≡ false)
        × Meets asks p
        × (d ≡ initial_state chid p receiver)
  unfolding validate_pull
  validate_pull-tracked is_restart other_voucher selector d h = absurd (none≢some h)
  validate_pull-tracked is_restart (proposal_voucher p) (err e) d h =
      elim (Bool-cases (p.payload_cid == base_cid)) [
        | inl same ↦ absurd (none≢some (rw (same, validate_pull) at h))
        | inr other ↦ absurd (none≢some (rw (other, validate_pull) at h))
      ]
  validate_pull-tracked true (proposal_voucher p) (ok bytes) d h = ground arith
  validate_pull-tracked false (proposal_voucher p) (ok bytes) d h =
      elim (Bool-cases (p.payload_cid == base_cid)) [
        | inr other ↦ absurd (none≢some (rw (other, validate_pull) at h))
        | inl same ↦ elim (Bool-cases (bytes == expected_selector all_selector p)) [
          | inr other ↦ absurd (none≢some (rw (same, validate_pull, other) at h))
          | inl fits ↦
              let (meets, initial) =
                begin_deal-tracked asks begin_tracking chid receiver p d
                  (rw (same, validate_pull, fits) at h) in
              (p, refl, (==_iff _ _).0 same, ap ok ((==_iff _ _).0 fits), refl, meets, initial)
        ]
      ]

  -- And it does track such a deal, with an answer that accepts it, if the state machines take it.
  pub validate_pull_accepts :
      (p : Proposal)
      → p.payload_cid ≡ base_cid
      → Meets asks p
      → begin_tracking (initial_state chid p receiver) ≡ ok none
      → validate_pull
          (check_deal_params asks)
          get_store_id
          begin_tracking
          all_selector
          false
          chid
          receiver
          (proposal_voucher p)
          base_cid
          (ok (expected_selector all_selector p))
        ≡ record {
          response = some (answer_to p accepted "");
          error = none;
          tracked = some (initial_state chid p receiver);
        }
  unfolding validate_pull
  validate_pull_accepts p same meets begun =
      rw ((==_iff _ _).1 same, validate_pull, ==_self (expected_selector all_selector p))
        (begin_deal_accepts asks begin_tracking chid receiver p meets begun)

  -- A proposal for less than the ask is refused.
  pub validate_pull_rejects :
      (p : Proposal)
      → p.payload_cid ≡ base_cid
      → p.price_per_byte <ℤ (get_ask p.payload_cid asks).min_price_per_byte
      → validate_pull
          (check_deal_params asks)
          get_store_id
          begin_tracking
          all_selector
          false
          chid
          receiver
          (proposal_voucher p)
          base_cid
          (ok (expected_selector all_selector p))
        ≡ record {
          response = some (answer_to p rejected "price per byte too low");
          error = some "price per byte too low";
          tracked = none;
        }
  unfolding validate_pull begin_deal conclude
  validate_pull_rejects p same cheap =
      rw ((==_iff _ _).1 same, validate_pull, ==_self (expected_selector all_selector p))
        (ap (conclude begin_tracking) (
          accept_deal_rejects asks begin_tracking chid receiver p "price per byte too low"
            (check_cheap asks chid receiver p cheap)))

  -- The checks bound the intervals from above only. A proposal with an interval of 0 that does not
  -- grow, at a price that meets the ask, is accepted like any other, if the state machines take it,
  -- and the loop of `NextInterval` on its terms has not ended after any number of rounds, whatever the
  -- current interval is.
  pub zero_interval_hangs :
      (p : Proposal) (fuel current : ℕ)
      → p.payload_cid ≡ base_cid
      → (get_ask p.payload_cid asks).min_price_per_byte ≤ℤ p.price_per_byte
      → p.payment_interval ≡ 0
      → p.payment_interval_increase ≡ 0
      → begin_tracking (initial_state chid p receiver) ≡ ok none
      → ((validate_pull
            (check_deal_params asks)
            get_store_id
            begin_tracking
            all_selector
            false
            chid
            receiver
            (proposal_voucher p)
            base_cid
            (ok (expected_selector all_selector p))).tracked
          ≡ some (initial_state chid p receiver))
        × (next_loop fuel p.payment_interval_increase current 0 p.payment_interval ≡ none)
  zero_interval_hangs p fuel current same price no_interval no_increase begun = (
    ap (λ a. a.tracked)
        (validate_pull_accepts p same
          (record { price = price; interval = omega arith; increase = omega arith }) begun),
    rw (no_interval, no_increase) (next_loop_stuck fuel current),
  )
