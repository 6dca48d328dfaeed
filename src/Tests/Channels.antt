-- ===== src/Tests/Channels.antt =====
-- payments/ on one channel: 100 on the chain, of which lane 0 has redeemed 10 and a stored voucher of
-- lane 1 promises 20.
use go_hop_exchange.Prelude.{ℕ, false, none, some, [], ◌∷◌, pos, ok, err}
use go_hop_exchange.Payments.Types.{Voucher, ChannelInfo, outbound}
use go_hop_exchange.Payments.Env.{Env, row, broken, ActorState}
use go_hop_exchange.Payments.Lanes.{Lanes}

abbrev pub voucher : ℕ → ℕ → ℕ → Voucher
voucher lane nonce amount = record {
  channel_addr = 7;
  lane = lane;
  nonce = nonce;
  amount = pos amount;
  merges = 0;
  terms = 0;
  signature = 0;
}

abbrev pub channel : ChannelInfo
channel = record {
  channel_id = 4;
  channel = some 7;
  control = 1;
  target = 2;
  direction = outbound;
  vouchers = record { voucher = voucher 1 1 20; submitted = false } ∷ [];
  next_lane = 2;
  amount = pos 100;
  pending_amount = pos 0;
  create_msg = none;
  add_funds_msg = none;
  settling = false;
  settling_at = pos 0;
}

abbrev pub chain : Lanes
chain = (0, record { redeemed = pos 10; nonce = 1 }) ∷ []

abbrev pub actor_state : ActorState
actor_state = record { from = 1; to = 2; settling_at = pos 0; lane_states = 0 }

-- An environment that answers every call, and keeps nothing.
abbrev pub quiet : Env (Unit {0})
quiet = record {
  encode_channel = λ ci. none;
  put_channel = λ w id ci. (w, none);
  get_channel = λ w id. some (ok channel);
  delete_channel = λ w id. (w, none);
  query_channels = λ w. ok (row channel ∷ []);
  put_msg = λ w mcid info. (w, none);
  get_msg = λ w mcid. err "no message";
  new_uuid = λ w. (w, 9);
  empty_addr = 99;
  init_addr = 98;
  get_actor = λ w addr. ok (record { nonce = 5; balance = pos 100 });
  read_state = λ w addr. some 0;
  parse_state = λ s. ok actor_state;
  chain_read_obj = λ w root. ok 0;
  keep_block = λ w root raw. none;
  lanes = λ w st. ok chain;
  account_key = λ w a. ok a;
  signing_bytes = λ sv. ok 0;
  verify = λ sv from bytes. none;
  sign = λ w a bytes. ok 0;
  estimate_gas = λ w msg. ok msg;
  message_bytes = λ msg. ok 0;
  message_cid = λ smsg. 55;
  mpool_push = λ w smsg. (w, none);
  asks_for_gas = λ s. false;
  named_premium = λ s. none;
  wait_msg = λ w mcid. (w, ok (record { exit_code = 0; robust_address = ok 7 }));
  state_call = λ w msg. ok 0;
  chain_head = λ w. ok (pos 0);
  show = λ n. "";
}

-- The same, where the first entry of the store cannot be read.
abbrev pub unreadable : Env (Unit {0})
unreadable = record quiet { query_channels = λ w. ok (broken "read" ∷ row channel ∷ []) }

-- The same, where a message of the channel is pending.
abbrev pub busy_channel : ChannelInfo
busy_channel = record channel { add_funds_msg = some 41; pending_amount = pos 30 }

abbrev pub busy : Env (Unit {0})
busy = record quiet { query_channels = λ w. ok (row busy_channel ∷ []) }
