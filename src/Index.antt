-- ===== src/Index.antt =====
-- exchange/index.go: the index of the content that a node stores, with its least-frequently-used
-- eviction.
pub mod Buckets
pub mod Refs
pub mod Lfu
pub mod Capacity
pub mod Order
pub mod Keeping
pub mod Loading
pub mod Interest
pub mod Cleaning
