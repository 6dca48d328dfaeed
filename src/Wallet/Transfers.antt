-- ===== src/Wallet/Transfers.antt =====
-- wallet/wallet.go: the balance of an address, and the transfer of funds. The API of the chain is an
-- argument, over a state of its own; `none` in its place is a wallet without one.
use Prim.Native.String.{String}
use go_hop_exchange.Prelude.{
  ℕ, Option, none, some, ◌==◌, if◌then◌else◌, ℤ, pos, Result, ok, err, and_then,
}
use go_hop_exchange.Wallet.Keystore.{Vault, KeystoreWallet, Signature, get_key, sign}

-- The fields of `fil.Message` that a transfer sets, and the gas that the chain estimates.
pub record TransferMessage : Type 0 where
  pub from : ℕ
  pub to : ℕ
  pub value : ℤ
  pub nonce : ℕ
  pub gas : Option ℕ

-- The calls of `fil.API`, with the content id of a message; `state_wait_msg` is the exit code.
pub record Api (C : Type 0) : Type 0 where
  pub state_read_balance : C → ℕ → Result ℤ
  pub gas_estimate_message_gas : C → TransferMessage → Result TransferMessage
  pub state_get_nonce : C → ℕ → Result ℕ
  pub block_cid : TransferMessage → Result ℕ
  pub mpool_push : C → TransferMessage → Signature → C × Option String
  pub state_wait_msg : C → TransferMessage → Signature → Result ℕ

-- `Balance`
unfoldable pub balance : {C : Type 0} → Option (Api C) → C → ℕ → ℤ × Option String
balance none c addr = (pos 0, some "no filecoin api connected")
balance (some api) c addr = elim (api.state_read_balance c addr) [
  | err e ↦ (pos 0, some e)
  | ok b ↦ (b, none)
]

-- The message of a transfer, as it is signed.
abbrev pub prepare_transfer : {C : Type 0} → Api C → C → ℕ → ℕ → ℤ → Result TransferMessage
prepare_transfer api c from to amount =
    let msg : TransferMessage = record {
      from = from;
      to = to;
      value = amount;
      nonce = 0;
      gas = none;
    } in
    and_then (api.gas_estimate_message_gas c msg) (λ estimated.
      and_then (api.state_get_nonce c estimated.from) (λ n. ok (record estimated { nonce = n })))

-- The end of `Transfer`, with the signed message.
unfoldable pub push_transfer :
    {C : Type 0} → Api C → C → TransferMessage → Signature → C × Option String
push_transfer api c msg sig =
    let (c', pushed) = api.mpool_push c msg sig in
    (
      c',
      elim pushed [
        | some e ↦ some "MpoolPush failed with error"
        | none ↦ elim (api.state_wait_msg c' msg sig) [
          | err e ↦ some "Failed to wait for msg"
          | ok code ↦ if code == 0 then none else some "Tx failed"
        ]
      ],
    )

-- `Transfer`; `parse_fil` reads the amount.
unfoldable pub transfer :
    {S C : Type 0}
    → Vault S
    → Option (Api C)
    → (String → Result ℤ)
    → ℕ
    → ℕ
    → String
    → KeystoreWallet S
    → C
    → KeystoreWallet S × C × Option String
unfolding get_key sign push_transfer
transfer v none parse_fil from to amount w c = (w, c, some "no filecoin api connected")
transfer v (some api) parse_fil from to amount w c =
    let (w1, found) = get_key v from w in
    let prepared : Result (TransferMessage × ℕ) = and_then found (λ k.
      and_then (parse_fil amount) (λ val.
        and_then (prepare_transfer api c from to val)
          (λ msg. and_then (api.block_cid msg) (λ cid. ok (msg, cid))))) in
    elim prepared [
      | err e ↦ (w1, c, some e)
      | ok (msg, cid) ↦
          let (w2, signed) = sign v msg.from cid w1 in
          elim signed [
            | err e ↦ (w2, c, some e)
            | ok sig ↦ let (c', e) = push_transfer api c msg sig in (w2, c', e)
          ]
    ]
