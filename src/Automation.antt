-- ===== src/Automation.antt =====
-- src/automation/mod.rs and the modules below it.
pub mod Stage
pub mod Readiness
pub mod Allocator
pub mod Policy
pub mod MarketReadiness
pub mod Simulator
pub mod Strategy
pub mod Runner
