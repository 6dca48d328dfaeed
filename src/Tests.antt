-- ===== src/Tests.antt =====
-- Runs of the model on concrete inputs, and the theorems at inputs that meet their hypotheses.
mod Machine
mod Deals
mod Providers
mod Clients
mod Indexes
mod Channels
mod Vouchers
mod Queues
mod Endings
mod Peers
mod Workers
mod Replication
mod Retrievals
mod Transactions
mod Market
mod Routing
mod Wallets
mod Cleaning
mod Lives
