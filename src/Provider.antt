-- ===== src/Provider.antt =====
-- retrieval/provider/fsm.go, events.go and the provider's state of retrieval/deal/types.go. An event
-- carries the arguments that the trigger hands to its action.
pub mod Chart
pub mod Effects
pub mod Owed
pub mod Run
pub mod Validation
pub mod Revalidator
pub mod Meter
pub mod Metering
pub mod Payments
pub mod Acceptance
pub mod Handlers
pub mod Ending
