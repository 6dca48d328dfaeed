-- ===== src/Retrieval.antt =====
-- retrieval/manager.go and counter.go: the retrieval client's calls, and what a provider does with the
-- payments of a deal that ended.
pub mod Deals
pub mod Settling
pub mod Restarting
