-- ===== src/Exchange.antt =====
-- exchange/: the regions of the network, the peers of a node, the replication of content, and the
-- transactions of its clients.
pub mod Regions
pub mod Peers
pub mod Naming
pub mod Greeting
pub mod Selection
pub mod Worker
pub mod Sessions
pub mod Finishing
pub mod Choosing
pub mod Replication
pub mod Pulling
pub mod Pumping
pub mod Draining
pub mod Keyed
pub mod Market
pub mod Executing
pub mod Agreement
pub mod Tx
pub mod Entries
pub mod Roots
pub mod Keys
pub mod Routing
pub mod Forwarding
pub mod Streams
pub mod Receiving
