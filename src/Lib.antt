-- ===== src/Lib.antt =====
-- The retrieval market of pop, and the index of its content.
--
-- A provider sells content from its store, a client buys it over a payment channel. The deal is
-- a state on each side, moved by events; a data transfer carries the blocks and asks the
-- provider's revalidator, at every block, whether it may go on unpaid.
--
-- - Deal: retrieval/deal, the terms of a deal (`Deal.Params`), its status (`Deal.Status`), the
--   schedule of payment intervals that the terms describe (`Deal.Schedule`, `Deal.Intervals`),
--   offers and retrieval/askstore.go (`Deal.Offer`).
-- - Fsm: the charts of go-statemachine. The engine is third-party: a record of a `fire`
--   operation and of the laws that its documentation gives.
-- - Provider: retrieval/provider/fsm.go (`Provider.Chart`, its events in `Provider.Effects`,
--   its histories in `Provider.Run`, its entry functions and retrieval/provider/dtsubscriber.go
--   in `Provider.Handlers`), the validator of retrieval/validators.go (`Provider.Validation`)
--   and its revalidator (`Provider.Revalidator`, `Provider.Meter`). The environment of the two
--   is a parameter.
-- - Client: retrieval/client/fsm.go, its chart (`Client.Chart`), the actions of the events
--   (`Client.Actions`) and the entry functions of the statuses (`Client.Handlers`).
-- - Payments: the payment channels of payments/. The store of channels (`Payments.Store`,
--   `Payments.Submitted`), the lanes of a channel (`Payments.Lanes`), the vouchers that are
--   checked, added, made and submitted (`Payments.Vouchers`), the messages to the chain
--   (`Payments.Messages`), the requests for funds, the messages that serve them and what these
--   change in the stored channel (`Payments.Requests`, `Payments.Funds`, `Payments.Pending`,
--   `Payments.Queue`; over the life of a channel, `Payments.Balance`, `Payments.Ledger`), the channels of other nodes (`Payments.Inbound`), what is redeemed, settled
--   and collected (`Payments.Redeeming`), and the manager's operations (`Payments.Access`). The
--   datastore, the chain and the wallet are the operations of `Payments.Env`; a panic is the answer
--   `crashed`.
-- - Index: exchange/index.go, the buckets of the eviction list (`Index.Buckets`), the refs
--   (`Index.Refs`), the operations (`Index.Lfu`), the index as it is loaded (`Index.Loading`),
--   the list of what other nodes have (`Index.Interest`) and the cleaning of the block store
--   (`Index.Cleaning`). The HAMT, the stores and the walk over a DAG are a parameter.
-- - Retrieval: retrieval/manager.go and counter.go, the deals of a client (`Retrieval.Deals`) and what
--   a provider redeems when a deal ends (`Retrieval.Settling`). The groups of state machines and the
--   payment manager are parameters.
-- - Exchange: exchange/regions.go (`Exchange.Regions`), exchange/peermgr.go (`Exchange.Peers`),
--   exchange/replication.go (`Exchange.Replication`, `Exchange.Receiving`), exchange/routing.go
--   (`Exchange.Routing`), the handler of queries of exchange/exchange.go
--   (`Exchange.Market`), and of exchange/tx.go the worker that queues and executes offers
--   (`Exchange.Worker`), the execution of an offer (`Exchange.Executing`), the entries as a DAG with
--   their readers in internal/utils/stat.go (`Exchange.Entries`) and the operations of a transaction
--   (`Exchange.Tx`). An execution asks the client of `Retrieval`, and the deal that it asks for meets
--   the validator of `Provider` with the ask that the handler of queries left. The host of libp2p, the
--   split of a topic, the nodes of IPLD and the stores of blocks are parameters, and so is `sort.Slice`, by which the
--   offers are sorted.
-- - Wallet: wallet/wallet.go, the keys of a node (`Wallet.Keystore`) and the transfer of funds
--   (`Wallet.Transfers`). The keystore, the signers and the chain are parameters.
-- - Tests: runs at concrete inputs.
--
-- Token amounts are integers without bound, as `big.Int` is; `uint64` sums and differences wrap
-- at 2^64. The loops over payment intervals run on fuel, three rounds more than the current
-- interval: enough for any schedule that grows by at least one byte in each round. The opening of a
-- stream runs on six rounds, one more than the attempts at which the code gives up. A poll of a transfer
-- is a recursion over what its channel says, and `none` where that is used up.
--
-- Not modelled: encodings (a stored channel stands for its bytes, of which only the errors are
-- there), logging, contexts and locks, the wiring in retrieval/manager.go, of
-- payments/manager.go the cache of channel accessors and the loop that collects, of exchange/ the
-- streams and the subscriptions, the client of the chain, and the node.
pub mod Prelude
pub mod Deal
pub mod Fsm
pub mod Provider
pub mod Client
pub mod Payments
pub mod Index
pub mod Exchange
pub mod Retrieval
pub mod Wallet
mod Tests
