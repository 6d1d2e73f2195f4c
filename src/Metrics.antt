-- ===== src/Metrics.antt =====
-- Package internal/metrics: what the operator counts and shows of itself and of its clusters.
pub mod Vectors
pub mod Recorder
pub mod Counted
pub mod Gauges
