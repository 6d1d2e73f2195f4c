-- ===== src/Api.antt =====
-- Package api/v1alpha1: the custom resources and their admission webhooks.
pub mod Types
pub mod Objects
pub mod Storage
pub mod Cluster
pub mod Sentinel
pub mod Standalone
