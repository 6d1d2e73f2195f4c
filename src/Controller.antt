-- ===== src/Controller.antt =====
-- The controllers of internal/controller.
pub mod Names
pub mod Kube
pub mod Apply
pub mod Reload
pub mod Failover
pub mod Reconcile
pub mod Standalone
pub mod Sentinel
pub mod Cluster
pub mod Metered
pub mod Pods
pub mod Lifecycle
pub mod Status
pub mod Conditions
