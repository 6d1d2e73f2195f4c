-- ===== src/Metrics/Gauges.antt =====
-- What `SetClusterMetrics` and `DeleteClusterMetrics` of internal/metrics/recorder.go leave of the gauges.
use kubernetes_redis_operato.Prelude.{
  ◌≡◌, Bool, true, false, ◌&&◌, Option, none, some, List, if◌then◌else◌,
}
use kubernetes_redis_operato.Prelude.Int.{ℤ, pos}
use kubernetes_redis_operato.Go.Text.{Str, str_eq, codes}
use kubernetes_redis_operato.Metrics.Vectors.{GaugeVec, Registry, IsRegistry, labels_eq}
use kubernetes_redis_operato.Metrics.Recorder.{
  cluster_labels, set_cluster_metrics, delete_cluster_metrics,
}

-- The five values that are shown of a cluster; the other gauges have none.
abbrev pub shown : Str → ℤ → ℤ → ℤ → ℤ → GaugeVec → Option ℤ
shown state slots nodes masters replicas GaugeVec.cluster_state =
    some (if str_eq state (codes "ok") then pos 1 else pos 0)
shown state slots nodes masters replicas GaugeVec.cluster_assigned_slots = some slots
shown state slots nodes masters replicas GaugeVec.cluster_known_nodes = some nodes
shown state slots nodes masters replicas GaugeVec.cluster_master_count = some masters
shown state slots nodes masters replicas GaugeVec.cluster_replica_count = some replicas
shown state slots nodes masters replicas _ = none

-- The gauges that are kept for each cluster.
abbrev pub is_of_cluster : GaugeVec → Bool
is_of_cluster GaugeVec.managed_clusters = false
is_of_cluster GaugeVec.managed_sentinels = false
is_of_cluster GaugeVec.managed_standalone = false
is_of_cluster _ = true

module _ {S : Type 0} (r : Registry S) (h : IsRegistry r) where
  pub gauge-set_cluster_metrics :
      (name namespace state : Str) (slots nodes masters replicas : ℤ) (s : S)
      → (c : GaugeVec) (ls : List Str)
      → r.gauge c ls (set_cluster_metrics r name namespace state slots nodes masters replicas s) ≡ (
          if is_of_cluster c && labels_eq ls (cluster_labels name namespace)
          then shown state slots nodes masters replicas c
          else r.gauge c ls s)
  unfolding set_cluster_metrics
  gauge-set_cluster_metrics name namespace state slots nodes masters replicas s
        GaugeVec.managed_clusters ls =
      simp (h.gauge-set_gauge)
  gauge-set_cluster_metrics name namespace state slots nodes masters replicas s _ ls =
      simp (h.gauge-set_gauge)

  pub gauge-delete_cluster_metrics :
      (name namespace : Str) (s : S) (c : GaugeVec) (ls : List Str)
      → r.gauge c ls (delete_cluster_metrics r name namespace s) ≡ (
          if is_of_cluster c && labels_eq ls (cluster_labels name namespace)
          then none
          else r.gauge c ls s)
  unfolding delete_cluster_metrics
  gauge-delete_cluster_metrics name namespace s GaugeVec.managed_clusters ls = simp (h.gauge-delete)
  gauge-delete_cluster_metrics name namespace s _ ls = simp (h.gauge-delete)
