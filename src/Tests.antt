-- ===== src/Tests.antt =====
-- Test data, tests at concrete inputs, and an example for each result.
pub mod Data
pub mod Books
pub mod Orders
pub mod Accounting
pub mod Events
pub mod Resting
pub mod Feeds
pub mod Prices
pub mod Replays
pub mod Inputs
pub mod Scripts
pub mod Settings
