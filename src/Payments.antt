-- ===== src/Payments.antt =====
-- payments: payment channels, their vouchers and the funds that are added to them.
pub mod Types
pub mod Lanes
pub mod Redeemed
pub mod Env
pub mod Store
pub mod Messages
pub mod Submitted
pub mod Vouchers
pub mod Solvency
pub mod Admission
pub mod Marking
pub mod Requests
pub mod Pending
pub mod Funds
pub mod Queue
pub mod Queueing
pub mod Balance
pub mod Ledger
pub mod Shortfall
pub mod Creation
pub mod Nonces
pub mod Finding
pub mod Allocation
pub mod Inbound
pub mod Redeeming
pub mod Best
pub mod Access
pub mod Covering
pub mod Submitting
