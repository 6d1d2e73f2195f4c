-- ===== src/Tests.antt =====
-- Runs of the model at concrete data, and the theorems at that data.
pub mod World
pub mod Manager
pub mod Outer
pub mod Objects
pub mod Remote
pub mod Metrics
pub mod Upgrade
pub mod Settled
pub mod Formed
pub mod Started
