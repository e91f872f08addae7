-- ===== src/Rider.antt =====
-- The package `rider`: crowdsourced vehicle positions.
pub mod Geometry
pub mod Schedule
pub mod Verify
pub mod Session
pub mod Reputation
pub mod Aggregator
pub mod Trusted
