-- ===== src/Provider/Validation.antt =====
-- retrieval/validators.go and environments.go: how a provider answers a pull request. What the
-- state-machine group does with an accepted deal is an argument.
use Prim.Native.String.{String}
use go_hop_exchange.Prelude.{
  ℕ, Bool, not, Option, none, some, pos, ltb_ℤ, ltb, ◌==◌, if◌then◌else◌, Result, ok, err, fail_if,
}
use go_hop_exchange.Deal.Status.{Status, new, accepted, rejected, deal_not_found}
use go_hop_exchange.Deal.Params.{Proposal}
use go_hop_exchange.Deal.Offer.{Response, AskStore, get_ask}
use go_hop_exchange.Provider.Chart.{ProviderState}

-- `datatransfer.Voucher`: the types that the code tells apart.
pub data RequestVoucher : Type 0 where
  proposal_voucher : Proposal → RequestVoucher
  other_voucher : RequestVoucher

-- `CheckDealParams`
unfoldable pub check_deal_params : AskStore → ProviderState → Result (Unit {0})
check_deal_params asks ds =
    let ask = get_ask ds.payload_cid asks in
    fail_if (ltb_ℤ ds.price_per_byte ask.min_price_per_byte) "price per byte too low" (
      fail_if (ltb ask.max_payment_interval ds.payment_interval) "payment interval too large" (
        fail_if (ltb ask.max_payment_interval_increase ds.payment_interval_increase)
          "payment interval increase too large" (ok tt)))

-- `acceptDeal`: the status, the error if there is one, and the deal with its store.
unfoldable pub accept_deal :
    (ProviderState → Result (Unit {0}))
    → (ℕ → Result ℕ)
    → ProviderState
    → Status × Option String × ProviderState
accept_deal check get_store_id d = elim (check d) [
  | err e ↦ (rejected, some e, d)
  | ok _ ↦ elim (get_store_id d.payload_cid) [
    | err e ↦ (deal_not_found, some e, d)
    | ok store ↦ (accepted, none, record d { store_id = store })
  ]
]

-- `GetStoreID`
unfoldable pub get_store_id : ℕ → Result ℕ
get_store_id c = ok 0

-- The answer to a request: the voucher result, if there is one, and the error, if there is one; and
-- the deal that is tracked from now on, if there is one.
pub record Answer : Type 0 where
  pub response : Option Response
  pub error : Option String
  pub tracked : Option ProviderState

abbrev pub refuse : String → Answer
refuse e = record { response = none; error = some e; tracked = none }

-- `ValidatePush`
unfoldable pub validate_push : RequestVoucher → Answer
validate_push voucher = refuse "No pushes accepted"

abbrev pub initial_state : ℕ → Proposal → ℕ → ProviderState
initial_state chid proposal receiver = record {
  proposal = proposal;
  store_id = 0;
  channel_id = chid;
  piece_info = none;
  status = new;
  receiver = receiver;
  total_sent = 0;
  funds_received = pos 0;
  message = "";
  current_interval = proposal.payment_interval;
  pay_ch = none;
}

abbrev pub answer_to : Proposal → Status → String → Response
answer_to proposal status message = record {
  status = status;
  id = proposal.id;
  payment_owed = pos 0;
  message = message;
}

-- `BeginTracking`: the state machine is begun, then the revalidator tracks the deal, and at last the
-- machine is sent the event that opens the deal; `begin` and `open_deal` give the errors of the machines.
-- An error of the last is in `ok`, since the deal is tracked then.
abbrev pub begin_tracking_by :
    (ProviderState → Option String)
    → (ProviderState → Option String)
    → ProviderState
    → Result (Option String)
begin_tracking_by begin open_deal d = elim (begin d) [ some e ↦ err e | none ↦ ok (open_deal d) ]

-- The part of `ValidatePull` behind `acceptDeal`, and behind the checks of the request.
unfoldable pub conclude :
    (ProviderState → Result (Option String)) → Status × Option String × ProviderState → Answer
conclude begin_tracking (status, some e, d) = record {
  response = some (answer_to d.proposal status e);
  error = some e;
  tracked = none;
}
conclude begin_tracking (status, none, d) = elim (begin_tracking d) [
  | err e ↦ refuse e
  | ok (some e) ↦ record { response = none; error = some e; tracked = some d }
  | ok none ↦ record {
    response = some (answer_to d.proposal status "");
    error = none;
    tracked = some d;
  }
]

unfoldable pub begin_deal :
    (ProviderState → Result (Unit {0}))
    → (ℕ → Result ℕ)
    → (ProviderState → Result (Option String))
    → ProviderState
    → Answer
unfolding conclude
begin_deal check store begin_tracking pds = conclude begin_tracking (accept_deal check store pds)

-- The encoding that the requested selector must have.
abbrev pub expected_selector : ℕ → Proposal → ℕ
expected_selector all_selector proposal = elim proposal.selector [
  | none ↦ all_selector
  | some raw ↦ raw
]

-- `ValidatePull`; `selector` is the encoding of the requested selector or the encoder's error, and
-- `all_selector` that of the selector for everything.
unfoldable pub validate_pull :
    (ProviderState → Result (Unit {0}))
    → (ℕ → Result ℕ)
    → (ProviderState → Result (Option String))
    → ℕ
    → Bool
    → ℕ
    → ℕ
    → RequestVoucher
    → ℕ
    → Result ℕ
    → Answer
unfolding begin_deal
validate_pull check store begin_tracking all_selector is_restart chid receiver other_voucher
      base_cid selector =
    refuse "wrong voucher type"
validate_pull check store begin_tracking all_selector is_restart chid receiver
      (proposal_voucher proposal) base_cid selector =
    if not (proposal.payload_cid == base_cid)
    then refuse "incorrect CID for this proposal"
    else (elim selector [
      | err e ↦ refuse e
      | ok bytes ↦
          if not (bytes == expected_selector all_selector proposal)
          then refuse "incorrect selector for this proposal"
          else if is_restart
          then record { response = none; error = none; tracked = none }
          else begin_deal check store begin_tracking (initial_state chid proposal receiver)
    ])
