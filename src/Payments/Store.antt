-- ===== src/Payments/Store.antt =====
-- payments/store.go: the store of channels and messages.
use Prim.Native.String.{String}
use go_hop_exchange.Prelude.{
  ℕ, ◌+◌, Bool, true, false, not, ◌&&◌, Option, none, some, List, [], ◌∷◌, ◌++◌, length, ◌==◌,
  if◌then◌else◌, ℤ, pos, u64, ok, err,
}
use go_hop_exchange.Payments.Types.{
  VoucherInfo, ChannelInfo, Direction, inbound, outbound, not_tracked, text, wrapped, Answer, given,
  failed, crashed, ◌>>=◌,
}
use go_hop_exchange.Payments.Env.{Env, Row, row, broken, garbled, of_result, of_error, after}

-- `marshallChannelInfo` and `unmarshallChannelInfo` but for the CBOR encoding, for which the channel
-- itself stands here: a reserved address stands for none. An error of the decoding is a result of the
-- datastore, and one of the encoding is that of `encode_channel`.
abbrev pub with_empty : ℕ → ChannelInfo → Option ℕ → ChannelInfo
with_empty empty ci none = record ci { channel = some empty }
with_empty empty ci (some a) = ci

unfoldable pub marshall_channel_info : ℕ → ChannelInfo → ChannelInfo
marshall_channel_info empty ci = with_empty empty ci ci.channel

abbrev pub without_empty : ℕ → ChannelInfo → Option ℕ → ChannelInfo
without_empty empty ci none = ci
without_empty empty ci (some a) = if a == empty then record ci { channel = none } else ci

unfoldable pub unmarshall_channel_info : ℕ → ChannelInfo → ChannelInfo
unmarshall_channel_info empty ci = without_empty empty ci ci.channel

-- The loop of `findChans`. A read error returns the outer `err`, which is nil there, with no match.
unfoldable pub find_rows :
    ℕ → (ChannelInfo → Bool) → ℕ → List ChannelInfo → List Row → Answer (List ChannelInfo)
unfolding unmarshall_channel_info
find_rows empty filter max matches [] = given matches
find_rows empty filter max matches (broken _ ∷ rows) = given []
find_rows empty filter max matches (garbled e ∷ rows) = failed (text e)
find_rows empty filter max matches (row stored ∷ rows) =
    let ci = unmarshall_channel_info empty stored in
    elim (filter ci) [
      | false ↦ find_rows empty filter max matches rows
      | true ↦ elim (length (matches ++ (ci ∷ [])) == max) [
        | true ↦ given (matches ++ (ci ∷ []))
        | false ↦ find_rows empty filter max (matches ++ (ci ∷ [])) rows
      ]
    ]

-- The filters of `OutboundActiveByFromTo`, `ByAddress`, `ListChannels`.
abbrev pub is_outbound : Direction → Bool
is_outbound outbound = true
is_outbound inbound = false

unfoldable pub is_active_between : ℕ → ℕ → ChannelInfo → Bool
is_active_between from to ci =
    is_outbound ci.direction && not ci.settling && ci.control == from && ci.target == to

abbrev pub has_addr : ℕ → Option ℕ → Bool
has_addr addr none = false
has_addr addr (some a) = a == addr

abbrev pub is_created : Option ℕ → Bool
is_created none = false
is_created (some _) = true

abbrev pub first : List ChannelInfo → Answer ChannelInfo
first [] = failed not_tracked
first (ci ∷ _) = given ci

abbrev pub addresses : List ChannelInfo → Answer (List ℕ)
addresses [] = given []
addresses (ci ∷ cis) = elim ci.channel [
  | none ↦ crashed
  | some a ↦ (addresses cis >>= λ as'. given (a ∷ as'))
]

-- The channel that `CreateChannel` stores, without its id.
unfoldable pub new_channel : ℕ → ℕ → ℕ → ℤ → ChannelInfo
new_channel from to mcid amt = record {
  channel_id = 0;
  channel = none;
  control = from;
  target = to;
  direction = outbound;
  vouchers = [];
  next_lane = 0;
  amount = pos 0;
  pending_amount = amt;
  create_msg = some mcid;
  add_funds_msg = none;
  settling = false;
  settling_at = pos 0;
}

module _ {W : Type 0} (env : Env W) where
  -- `findChans`
  unfoldable pub find_chans : W → (ChannelInfo → Bool) → ℕ → Answer (List ChannelInfo)
  unfolding find_rows
  find_chans w filter max =
      of_result (env.query_channels w) >>= find_rows env.empty_addr filter max []

  -- `findChan`
  unfoldable pub find_chan : W → (ChannelInfo → Bool) → Answer ChannelInfo
  unfolding find_chans
  find_chan w filter = find_chans w filter 1 >>= first

  -- `OutboundActiveByFromTo`
  unfoldable pub outbound_active_by_from_to : W → ℕ → ℕ → Answer ChannelInfo
  unfolding find_chan is_active_between
  outbound_active_by_from_to w from to = find_chan w (is_active_between from to)

  -- `ByAddress`
  unfoldable pub by_address : W → ℕ → Answer ChannelInfo
  unfolding find_chan
  by_address w addr = find_chan w (λ ci. has_addr addr ci.channel)

  -- `VouchersForPaych`
  unfoldable pub vouchers_for_paych : W → ℕ → Answer (List VoucherInfo)
  unfolding by_address
  vouchers_for_paych w addr = by_address w addr >>= λ ci. given ci.vouchers

  -- `ListChannels`
  unfoldable pub list_channels : W → Answer (List ℕ)
  unfolding find_chans
  list_channels w = find_chans w (λ ci. is_created ci.channel) 0 >>= addresses

  -- `ListSettlingChannels`
  unfoldable pub list_settling_channels : W → Answer (List ChannelInfo)
  unfolding find_chans
  list_settling_channels w = find_chans w (λ ci. ci.settling) 0

  -- `ByChannelID`
  unfoldable pub by_channel_id : W → ℕ → Answer ChannelInfo
  unfolding unmarshall_channel_info
  by_channel_id w id = elim (env.get_channel w id) [
    | none ↦ failed not_tracked
    | some (err e) ↦ failed (text e)
    | some (ok stored) ↦ given (unmarshall_channel_info env.empty_addr stored)
  ]

  -- The end of `putChannelInfo`, where the channel has an id.
  unfoldable pub put_with_id : W → ChannelInfo → W × Answer ChannelInfo
  unfolding marshall_channel_info
  put_with_id w ci =
      let stored = marshall_channel_info env.empty_addr ci in
      elim (env.encode_channel stored) [
        | some e ↦ (w, failed (wrapped "marshalling" (text e)))
        | none ↦
            let (w', e) = env.put_channel w ci.channel_id stored in
            (w', (of_error e >>= λ _. given stored))
      ]

  -- `putChannelInfo`, with what it leaves in its argument.
  unfoldable pub put_channel_info : W → ChannelInfo → W × Answer ChannelInfo
  unfolding put_with_id
  put_channel_info w ci =
      if ci.channel_id == 0
      then (let (w', id) = env.new_uuid w in put_with_id w' (record ci { channel_id = id }))
      else put_with_id w ci

  -- `SaveNewMessage`
  unfoldable pub save_new_message : W → ℕ → ℕ → W × Answer (Unit {0})
  save_new_message w id mcid =
      let (w', e) =
        env.put_msg w mcid
          (record { channel_id = id; msg_cid = mcid; received = false; err = "" }) in
      (w', of_error e)

  -- `CreateChannel`
  unfoldable pub create_channel : W → ℕ → ℕ → ℕ → ℤ → W × Answer ChannelInfo
  unfolding put_channel_info save_new_message new_channel
  create_channel w from to mcid amt =
      after (put_channel_info w (new_channel from to mcid amt))
        (λ w' ci. after (save_new_message w' ci.channel_id mcid) (λ w'' _. (w'', given ci)))

  -- `SaveMessageResult`, with the text of the message's error.
  unfoldable pub save_message_result : W → ℕ → Option String → W × Answer (Unit {0})
  save_message_result w mcid failure = elim (env.get_msg w mcid) [
    | err e ↦ (w, failed (text e))
    | ok info ↦
        let (w', e) =
          env.put_msg w mcid (record info {
            received = true;
            err = elim failure [ none ↦ info.err | some s ↦ s ];
          }) in
        (w', of_error e)
  ]

  -- `ByMessageCid`
  unfoldable pub by_message_cid : W → ℕ → Answer ChannelInfo
  unfolding find_chan
  by_message_cid w mcid = of_result (env.get_msg w mcid) >>= λ info.
      find_chan w (λ ci. ci.channel_id == info.channel_id)

  -- `AllocateLane`
  unfoldable pub allocate_lane : W → ℕ → W × Answer ℕ
  unfolding by_address put_channel_info
  allocate_lane w addr =
      after (w, by_address w addr)
        (λ w ci.
          after (put_channel_info w (record ci { next_lane = u64 (ci.next_lane + 1) }))
            (λ w' _. (w', given ci.next_lane)))

  -- The switch of `TrackChannel` on what `ByAddress` says.
  unfoldable pub track_unless : W → ℕ → ChannelInfo → Answer ChannelInfo → W × Answer ChannelInfo
  unfolding put_channel_info by_address
  track_unless w addr ci (given _) = (w, failed (text "already tracking channel"))
  track_unless w addr ci (failed not_tracked) =
      after (put_channel_info w ci) (λ w' _. (w', by_address w' addr))
  track_unless w addr ci (failed e) = (w, failed e)
  track_unless w addr ci crashed = (w, crashed)

  -- `TrackChannel`
  unfoldable pub track_channel : W → ChannelInfo → W × Answer ChannelInfo
  unfolding track_unless
  track_channel w ci = elim ci.channel [
    | none ↦ (w, crashed)
    | some addr ↦ track_unless w addr ci (by_address w addr)
  ]

  -- `SetChannelSettlingAt`
  unfoldable pub set_channel_settling_at : W → ChannelInfo → ℤ → W × Answer ChannelInfo
  unfolding put_channel_info
  set_channel_settling_at w ci ep = put_channel_info w (record ci { settling_at = ep })

  -- `RemoveChannel`
  abbrev pub remove_channel : W → ℕ → W × Option String
  remove_channel w id = env.delete_channel w id
