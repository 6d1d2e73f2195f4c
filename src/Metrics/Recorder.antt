-- ===== src/Metrics/Recorder.antt =====
-- The functions of internal/metrics/recorder.go, on a registry. A duration is the time in nanoseconds
-- since the start that the callers pass, where the source observes it in seconds.
use kubernetes_redis_operato.Prelude.{List, ℕ, Option, none, some, [], ◌∷◌, if◌then◌else◌}
use kubernetes_redis_operato.Prelude.Int.{ℤ, pos}
use kubernetes_redis_operato.Go.Text.{Str, codes, str_eq}
use kubernetes_redis_operato.Redis.Effect.{Error}
use kubernetes_redis_operato.Metrics.Vectors.{CounterVec, GaugeVec, HistogramVec, Registry}

-- `KindRedis`, `KindSentinel` and `KindCluster`
pub data Kind : Type 0 where
  redis redis_sentinel redis_cluster : Kind

abbrev pub kind_text : Kind → Str
kind_text Kind.redis = codes "Redis"
kind_text Kind.redis_sentinel = codes "RedisSentinel"
kind_text Kind.redis_cluster = codes "RedisCluster"

abbrev pub success_labels : Kind → List Str
success_labels k = kind_text k ∷ codes "success" ∷ []

abbrev pub error_labels : Kind → List Str
error_labels k = kind_text k ∷ codes "error" ∷ []

abbrev pub cluster_labels : Str → Str → List Str
cluster_labels name namespace = name ∷ namespace ∷ []

module _ {S : Type 0} (r : Registry S) where
  abbrev count_result : Kind → Option Error → S → S
  count_result k none s = r.inc CounterVec.reconcile_total (success_labels k) s
  count_result k (some e) s =
      r.inc CounterVec.reconcile_total (error_labels k)
        (r.inc CounterVec.reconcile_errors (error_labels k) s)

  unfoldable pub record_reconcile : Kind → ℕ → Option Error → S → S
  record_reconcile k elapsed err s =
      r.observe HistogramVec.reconcile_duration (kind_text k ∷ []) elapsed (count_result k err s)

  abbrev healthy : Str → ℤ
  healthy state = if str_eq state (codes "ok") then pos 1 else pos 0

  unfoldable pub set_cluster_metrics : Str → Str → Str → ℤ → ℤ → ℤ → ℤ → S → S
  unfolding str_eq
  set_cluster_metrics name namespace state slots nodes masters replicas s =
      let ls = cluster_labels name namespace in
      r.set_gauge GaugeVec.cluster_replica_count ls replicas (
        r.set_gauge GaugeVec.cluster_master_count ls masters (
          r.set_gauge GaugeVec.cluster_known_nodes ls nodes (
            r.set_gauge GaugeVec.cluster_assigned_slots ls slots
              (r.set_gauge GaugeVec.cluster_state ls (healthy state) s))))

  unfoldable pub record_cluster_scaling : Str → Str → Str → ℕ → S → S
  record_cluster_scaling name namespace direction elapsed s =
      let ls = name ∷ namespace ∷ direction ∷ [] in
      r.observe HistogramVec.cluster_scaling_duration ls elapsed
        (r.inc CounterVec.cluster_scaling_operations ls s)

  unfoldable pub record_cluster_failover : Str → Str → S → S
  record_cluster_failover name namespace s =
      r.inc CounterVec.cluster_failover_total (cluster_labels name namespace) s

  unfoldable pub delete_cluster_metrics : Str → Str → S → S
  delete_cluster_metrics name namespace s =
      let ls = cluster_labels name namespace in
      r.delete_label_values GaugeVec.cluster_replica_count ls (
        r.delete_label_values GaugeVec.cluster_master_count ls (
          r.delete_label_values GaugeVec.cluster_known_nodes ls (
            r.delete_label_values GaugeVec.cluster_assigned_slots ls
              (r.delete_label_values GaugeVec.cluster_state ls s))))
