-- ===== src/Client.antt =====
-- retrieval/client: the client's side of a retrieval, its state chart and its handlers.
pub mod Chart
pub mod Actions
pub mod Handlers
pub mod Spending
