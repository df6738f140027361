-- ===== src/Storage.antt =====
-- storage/*.go: what the agent keeps between runs.
pub mod State
pub mod Offline
pub mod Groups
pub mod Watches
mod Tests
