-- ===== src/Resources.antt =====
-- Package internal/resources: the objects that the operator asks Kubernetes for.
pub mod Labels
pub mod Object
pub mod Service
pub mod Container
pub mod Workload
pub mod Budget
pub mod Monitor
pub mod Config
