-- ===== src/Offers.antt =====
-- services/offer_*.go: the offers that the agent fulfills.
pub mod Route
pub mod Stage
mod Tests
