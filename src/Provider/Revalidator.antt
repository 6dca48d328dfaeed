-- ===== src/Provider/Revalidator.antt =====
-- retrieval/validators.go: the revalidator, which meters a provider's transfers and takes payments.
-- `Env` is the interface `RevalidatorEnvironment`: the state machines and the payment manager, over
-- a state of theirs. A lock held for a whole call is left out.
use Prim.Native.String.{String}
use go_hop_exchange.Prelude.{
  ℕ, Bool, false, Option, none, some, List, [], ◌∷◌, ℤ, pos, ◌-ℤ◌, ◌*ℤ◌, ltb_ℤ, max_ℤ, div_ℤ,
  is_zero, ◌==◌, if◌then◌else◌, from_int64, to_uint64, Result,
}
use go_hop_exchange.Deal.Status.{Status, errored}
use go_hop_exchange.Deal.Params.{interval_lower_bound}
use go_hop_exchange.Deal.Offer.{Response}
use go_hop_exchange.Provider.Chart.{ProviderState, Event}

-- `ProviderDealIdentifier`
pub record Identifier : Type 0 where
  pub receiver : ℕ
  pub deal_id : ℕ

abbrev pub identifier : ProviderState → Identifier
identifier d = record { receiver = d.receiver; deal_id = d.id }

pub record ChannelData : Type 0 where
  pub deal : Identifier
  pub total_sent : ℕ
  pub total_paid_for : ℕ
  pub interval : ℕ
  pub price_per_byte : ℤ
  pub reload : Bool
  pub legacy_protocol : Bool

pub record Payment : Type 0 where
  pub id : ℕ
  pub payment_channel : ℕ
  pub payment_voucher : ℕ

pub data SettlementVoucher : Type 0 where
  payment_voucher : Payment → SettlementVoucher
  other_voucher : SettlementVoucher

-- The `error` of a call: `datatransfer.ErrPause`, `ErrResume`, or another.
pub data Signal : Type 0 where
  pause resume : Signal
  failed : String → Signal

-- `Get`, `SendEvent` and `Payments().AddVoucherInbound`; a `none` of `send_event` is no error.
pub record Env (W : Type 0) : Type 0 where
  pub get : W → Identifier → Result ProviderState
  pub send_event : W → Identifier → Event → W × Option String
  pub add_voucher_inbound : W → ℕ → ℕ → W × Result ℤ

-- `trackedChannels`, by channel id.
abbrev pub Tracked : Type 0
Tracked = List (ℕ × ChannelData)

unfoldable pub find : ℕ → Tracked → Option ChannelData
find chid [] = none
find chid ((k, c) ∷ t) = if k == chid then some c else find chid t

-- A write through the pointer that the map holds; without one the program panics, which is `none`.
unfoldable pub write : ℕ → (ChannelData → ChannelData) → Tracked → Option Tracked
write chid f [] = none
write chid f ((k, c) ∷ t) =
    let rest = write chid f t in
    if k == chid
    then some ((k, f c) ∷ t)
    else (elim rest [ none ↦ none | some t' ↦ some ((k, c) ∷ t') ])

-- The fields that `writeDealState` sets.
unfoldable pub with_deal : ProviderState → ChannelData → ChannelData
with_deal d c = record c {
  total_sent = d.total_sent;
  total_paid_for =
      if is_zero d.price_per_byte
      then c.total_paid_for
      else to_uint64 (div_ℤ (max_ℤ (d.funds_received -ℤ d.unseal_price) (pos 0)) d.price_per_byte);
  interval = d.current_interval;
  price_per_byte = d.price_per_byte;
}

unfoldable pub write_deal_state : ProviderState → Tracked → Option Tracked
unfolding write with_deal
write_deal_state d t = write d.channel_id (with_deal d) t

-- `delete(pr.trackedChannels, ...)`
unfoldable pub untrack_channel : ProviderState → Tracked → Tracked
untrack_channel d [] = []
untrack_channel d ((k, c) ∷ t) =
    let rest = untrack_channel d t in if k == d.channel_id then rest else (k, c) ∷ rest

abbrev fresh_channel : ProviderState → ChannelData
fresh_channel d = record {
  deal = identifier d;
  total_sent = 0;
  total_paid_for = 0;
  interval = 0;
  price_per_byte = pos 0;
  reload = false;
  legacy_protocol = false;
}

unfoldable pub track_channel : ProviderState → Tracked → Option Tracked
unfolding write_deal_state untrack_channel
track_channel d t = write_deal_state d ((d.channel_id, fresh_channel d) ∷ untrack_channel d t)

-- `paymentOwed`; `none` if the interval loop has not ended on its fuel.
unfoldable pub payment_owed : ProviderState → ℤ → Option ℤ
payment_owed d total_paid =
    if ltb_ℤ total_paid d.unseal_price
    then some (d.unseal_price -ℤ total_paid)
    else (elim (interval_lower_bound d.params d.current_interval) [
      | none ↦ none
      | some current_limit_lower ↦
          some
            (from_int64 current_limit_lower *ℤ d.price_per_byte -ℤ (total_paid -ℤ d.unseal_price))
    ])

abbrev pub error_deal_response : Identifier → String → Response
error_deal_response id e = record {
  status = errored;
  id = id.deal_id;
  payment_owed = pos 0;
  message = e;
}

abbrev pub owed_response : ℕ → Status → ℤ → Response
owed_response id status owed = record {
  status = status;
  id = id;
  payment_owed = owed;
  message = "";
}

-- What a call of the revalidator gives: whether the transfer is a tracked one, the voucher result,
-- the error, and the state that is left.
pub record Reply (W : Type 0) : Type 0 where
  pub handled : Bool
  pub response : Option Response
  pub signal : Option Signal
  pub world : W
  pub tracked : Tracked
