-- ===== src/Payments/Messages.antt =====
-- payments/message.go, and the calls of payments/channel.go that go to the chain.
use Prim.Native.String.{String}
use go_hop_exchange.Prelude.{ℕ, true, false, Option, none, some, ℤ, pos, Result}
use go_hop_exchange.Payments.Types.{
  Voucher, text, wrapped, Answer, given, failed, crashed, ◌>>=◌, wrap,
}
use go_hop_exchange.Payments.Env.{
  Env, ActorState, Message, SignedMessage, Call, exec, update_channel_state, settle_channel,
  collect_channel, of_result, of_error, after,
}

abbrev pub message : ℕ → ℕ → ℤ → Call → Message
message from to value call = record {
  to = to;
  from = from;
  value = value;
  call = call;
  nonce = 0;
  gas = 0;
  gas_premium = pos 0;
}

-- `message.Create`, `Update`, `Settle` and `Collect`; the encoding of the parameters is left out.
abbrev pub create_message : ℕ → ℕ → ℕ → ℤ → Message
create_message init from to amt = message from init amt (exec from to)

abbrev pub update_message : ℕ → ℕ → Voucher → ℕ → Message
update_message from addr sv secret = message from addr (pos 0) (update_channel_state sv secret)

abbrev pub settle_message : ℕ → ℕ → Message
settle_message from addr = message from addr (pos 0) settle_channel

abbrev pub collect_message : ℕ → ℕ → Message
collect_message from addr = message from addr (pos 0) collect_channel

module _ {W : Type 0} (env : Env W) where
  -- `loadActorState`: the error of `StateReadState` is not looked at, and what it gives then is nil.
  unfoldable pub load_actor_state : W → ℕ → Answer ActorState
  load_actor_state w addr = elim (env.read_state w addr) [
    | none ↦ crashed
    | some state ↦ wrap "Error parsing actor state" (of_result (env.parse_state state)) >>= λ st.
        wrap "Unable to read lane states from chain"
          (of_result (env.chain_read_obj w st.lane_states))
        >>= λ raw.
            wrap "Unable to set block in store" (of_error (env.keep_block w st.lane_states raw))
            >>= λ _. given st
  ]

  -- Signing a message, which both `mpoolPush` and `increaseGas` do.
  unfoldable pub sign_message : W → Message → Answer SignedMessage
  sign_message w msg = of_result (env.message_bytes msg) >>= λ bytes.
      of_result (env.sign w msg.from bytes) >>= λ sig.
      given (record { message = msg; signature = sig })

  abbrev pub premium : Option (Result ℤ) → Answer ℤ
  premium none = failed (text "failed to match new gas price")
  premium (some r) = of_result r

  -- `increaseGas`
  unfoldable pub increase_gas : W → Message → String → W × Answer SignedMessage
  unfolding sign_message
  increase_gas w msg rec =
      after
        (
          w,
          (premium (env.named_premium rec) >>= λ p.
              sign_message w (record msg { gas_premium = p })),
        )
        (λ w smsg.
          let (w', e) = env.mpool_push w smsg in
          (w', (wrap "MpoolPush failed with error" (of_error e) >>= λ _. given smsg)))

  -- What is pushed: the message with its gas and with the nonce of its sender.
  unfoldable pub prepare : W → Message → Answer SignedMessage
  unfolding sign_message
  prepare w msg = of_result (env.estimate_gas w msg) >>= λ est.
      of_result (env.get_actor w est.from) >>= λ act.
      sign_message w (record est { nonce = act.nonce })

  -- The push of `mpoolPush`, which tries again with more gas where the pool asks for it.
  unfoldable pub push_or_increase : W → SignedMessage → W × Answer SignedMessage
  unfolding increase_gas
  push_or_increase w smsg =
      let (w', e) = env.mpool_push w smsg in
      elim e [
        | none ↦ (w', given smsg)
        | some rec ↦ elim (env.asks_for_gas rec) [
          | true ↦ increase_gas w' smsg.message rec
          | false ↦ (w', failed (wrapped "MpoolPush failed with error" (text rec)))
        ]
      ]

  -- `mpoolPush`
  unfoldable pub mpool_push : W → Message → W × Answer SignedMessage
  unfolding prepare push_or_increase
  mpool_push w msg = after (w, prepare w msg) push_or_increase
