-- ===== src/Deal/Offer.antt =====
-- retrieval/deal/types.go: offers, query responses and what the protocol sends about a deal; the ask
-- store of retrieval/askstore.go. Byte strings, content ids, addresses and peers are numbers: they
-- are only compared.
use Prim.Native.String.{String}
use go_hop_exchange.Prelude.{
  ℕ, List, [], ◌∷◌, ℤ, pos, ◌+ℤ◌, ◌*ℤ◌, from_int64, ◌==◌, if◌then◌else◌, ◌^◌,
}
use go_hop_exchange.Deal.Status.{Status}

pub data QueryResponseStatus : Type 0 where
  query_response_available query_response_unavailable query_response_error : QueryResponseStatus

pub data QueryItemStatus : Type 0 where
  query_item_available query_item_unavailable query_item_unknown : QueryItemStatus

pub record QueryResponse : Type 0 where
  pub status : QueryResponseStatus
  pub piece_cid_found : QueryItemStatus
  pub size : ℕ
  pub payment_address : ℕ
  pub min_price_per_byte : ℤ
  pub max_payment_interval : ℕ
  pub max_payment_interval_increase : ℕ
  pub message : String
  pub unseal_price : ℤ

-- `PieceRetrievalPrice`
unfoldable pub piece_retrieval_price : QueryResponse → ℤ
piece_retrieval_price qr = qr.min_price_per_byte *ℤ from_int64 qr.size +ℤ qr.unseal_price

pub record Offer : Type 0 where
  pub id : String
  pub peer_addr : ℕ
  pub payload_cid : ℕ
  pub size : ℕ
  pub payment_address : ℕ
  pub min_price_per_byte : ℤ
  pub max_payment_interval : ℕ
  pub max_payment_interval_increase : ℕ
  pub unseal_price : ℤ

unfoldable pub retrieval_price : Offer → ℤ
retrieval_price o = o.min_price_per_byte *ℤ from_int64 o.size

unfoldable pub as_query_response : Offer → QueryResponse
as_query_response o = record {
  status = query_response_available;
  piece_cid_found = query_item_available;
  size = o.size;
  payment_address = o.payment_address;
  min_price_per_byte = o.min_price_per_byte;
  max_payment_interval = o.max_payment_interval;
  max_payment_interval_increase = o.max_payment_interval_increase;
  message = "";
  unseal_price = o.unseal_price;
}

pub record Response : Type 0 where
  pub status : Status
  pub id : ℕ
  pub payment_owed : ℤ
  pub message : String

-- retrieval/deal/params.go
abbrev pub default_payment_interval : ℕ
default_payment_interval = 2 ^ 20

abbrev pub default_payment_interval_increase : ℕ
default_payment_interval_increase = 2 ^ 20

-- The map of the ask store, the latest entry of a key first.
abbrev pub AskStore : Type 0
AskStore = List (ℕ × Offer)

unfoldable pub set_ask : ℕ → Offer → AskStore → AskStore
set_ask k ask asks = (k, ask) ∷ asks

-- What `GetAsk` answers for a content id that no ask was set for: the zero values, but for the
-- default intervals.
abbrev pub default_ask : Offer
default_ask = record {
  id = "";
  peer_addr = 0;
  payload_cid = 0;
  size = 0;
  payment_address = 0;
  min_price_per_byte = pos 0;
  max_payment_interval = default_payment_interval;
  max_payment_interval_increase = default_payment_interval_increase;
  unseal_price = pos 0;
}

unfoldable pub get_ask : ℕ → AskStore → Offer
get_ask k [] = default_ask
get_ask k ((j, ask) ∷ asks) = if j == k then ask else get_ask k asks
