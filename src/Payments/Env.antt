-- ===== src/Payments/Env.antt =====
-- What payments/ uses of other packages, over a state of theirs: the datastore, which keeps channels
-- and messages in their encoding, the node's API for the chain, and the wallet. `Env` holds the
-- calls; channels are given to it, and come from it, as `marshallChannelInfo` leaves them.
use Prim.Native.String.{String}
use go_hop_exchange.Prelude.{ℕ, ◌≡◌, refl, ap, Bool, Option, List, ℤ, Result}
use go_hop_exchange.Payments.Types.{
  Voucher, ChannelInfo, MsgInfo, Answer, given, failed, crashed, text, given_inj,
}
use go_hop_exchange.Payments.Lanes.{Lanes}

-- A result of a query: an entry, a read error, or an entry that cannot be decoded.
pub data Row : Type 0 where
  row : ChannelInfo → Row
  broken : String → Row
  garbled : String → Row

-- `paych.State`, with the root of the array of its lanes.
pub record ActorState : Type 0 where
  pub from : ℕ
  pub to : ℕ
  pub settling_at : ℤ
  pub lane_states : ℕ

-- The message to the chain: the method with its parameters is one of those below.
pub data Call : Type 0 where
  send : Call
  exec : ℕ → ℕ → Call
  update_channel_state : Voucher → ℕ → Call
  settle_channel : Call
  collect_channel : Call

pub record Message : Type 0 where
  pub to : ℕ
  pub from : ℕ
  pub value : ℤ
  pub call : Call
  pub nonce : ℕ
  pub gas : ℕ
  pub gas_premium : ℤ

-- `SignedMessage`, which has a content id.
pub record SignedMessage : Type 0 where
  pub message : Message
  pub signature : ℕ

-- An actor of the chain.
pub record Actor : Type 0 where
  pub nonce : ℕ
  pub balance : ℤ

-- What `StateWaitMsg` tells: the exit code, and the address that a creation returns, if it decodes.
pub record Receipt : Type 0 where
  pub exit_code : ℕ
  pub robust_address : Result ℕ

pub record Env (W : Type 0) : Type 0 where
  -- The error of the CBOR encoding of a channel, for which the channel itself stands.
  pub encode_channel : ChannelInfo → Option String
  pub put_channel : W → ℕ → ChannelInfo → W × Option String
  -- The outer `none` is `datastore.ErrNotFound`.
  pub get_channel : W → ℕ → Option (Result ChannelInfo)
  pub delete_channel : W → ℕ → W × Option String
  pub query_channels : W → Result (List Row)
  pub put_msg : W → ℕ → MsgInfo → W × Option String
  pub get_msg : W → ℕ → Result MsgInfo
  pub new_uuid : W → W × ℕ
  pub empty_addr : ℕ
  pub init_addr : ℕ
  pub get_actor : W → ℕ → Result Actor
  -- `StateReadState`; where it fails it gives no state.
  pub read_state : W → ℕ → Option ℕ
  pub parse_state : ℕ → Result ActorState
  pub chain_read_obj : W → ℕ → Result ℕ
  -- The local copy of the lanes, which `lanes` reads.
  pub keep_block : W → ℕ → ℕ → Option String
  pub lanes : W → ActorState → Result Lanes
  pub account_key : W → ℕ → Result ℕ
  pub signing_bytes : Voucher → Result ℕ
  -- Whether the signature on these bytes is the address's.
  pub verify : Voucher → ℕ → ℕ → Option String
  pub sign : W → ℕ → ℕ → Result ℕ
  pub estimate_gas : W → Message → Result Message
  pub message_bytes : Message → Result ℕ
  pub message_cid : SignedMessage → ℕ
  pub mpool_push : W → SignedMessage → W × Option String
  -- Of the text of an error: whether it asks for more gas, and the premium that it names.
  pub asks_for_gas : String → Bool
  pub named_premium : String → Option (Result ℤ)
  pub wait_msg : W → ℕ → W × Result Receipt
  -- The exit code.
  pub state_call : W → Message → Result ℕ
  pub chain_head : W → Result ℤ
  -- A number in the text of an error.
  pub show : ℕ → String

-- A Go result as an answer, and its error alone.
abbrev pub of_result {ℓ} : {A : Type ℓ} → Result A → Answer A
of_result (Result.ok a) = given a
of_result (Result.err e) = failed (text e)

abbrev pub of_error : Option String → Answer (Unit {0})
of_error Option.none = given tt
of_error (Option.some e) = failed (text e)

-- A step that may change the state, and what follows where it gives a value.
abbrev pub after {ℓ κ} :
    {W : Type 0} {A : Type ℓ} {B : Type κ} → W × Answer A → (W → A → W × Answer B) → W × Answer B
after r f = elim r.1 [ given a ↦ f r.0 a | failed e ↦ (r.0, failed e) | crashed ↦ (r.0, crashed) ]

pub of_result-given {ℓ} :
    {A : Type ℓ} (r : Result A) {a : A} → of_result r ≡ given a → r ≡ Result.ok a
of_result-given (Result.ok a) h = ap Result.ok (given_inj h)
of_result-given (Result.err e) h = cc

-- Steps that give a value: what the first has given, and where the second begins.
pub after-given {ℓ κ} :
    {W : Type 0} {A : Type ℓ} {B : Type κ} (r : W × Answer A) (f : W → A → W × Answer B) {b : B}
    → (after r f).1 ≡ given b
    → (a : A) × (r.1 ≡ given a) × ((f r.0 a).1 ≡ given b) × ((after r f).0 ≡ (f r.0 a).0)
after-given (w, given a) f h = (a, refl, h, refl)
after-given (w, failed e) f h = cc
after-given (w, crashed) f h = cc
