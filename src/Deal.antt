-- ===== src/Deal.antt =====
-- retrieval/deal: the terms of a deal, its status, and the schedule of payment intervals.
pub mod Status
pub mod Params
pub mod Schedule
pub mod Intervals
pub mod Offer
