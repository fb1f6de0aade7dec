-- ===== src/Technical.antt =====
-- src/platform/technical.rs: the technical state of a chart.
pub mod Types
pub mod Series
pub mod Averages
pub mod Positions
pub mod Indicators
pub mod Daily
pub mod Cross
pub mod Setup
pub mod Events
pub mod Reversal
pub mod Entry
pub mod Reclaim
mod Tests
