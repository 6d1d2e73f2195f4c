-- ===== src/Metrics/Vectors.antt =====
-- The vectors of internal/metrics/metrics.go with their names and labels. The library of Prometheus,
-- which keeps their series, is a parameter: a registry, with the behaviour that it documents.
use kubernetes_redis_operato.Prelude.{
  ℕ, suc, ◌==◌, ◌≡◌, Bool, true, false, ◌&&◌, Option, none, some, List, [], ◌∷◌, if◌then◌else◌,
}
use kubernetes_redis_operato.Prelude.Int.{ℤ}
use kubernetes_redis_operato.Go.Text.{Str, codes, str_eq}

pub data CounterVec : Type 0 where
  reconcile_total reconcile_errors : CounterVec
  cluster_scaling_operations cluster_slot_migration_total cluster_failover_total : CounterVec

-- The first three have no labels.
pub data GaugeVec : Type 0 where
  managed_clusters managed_sentinels managed_standalone : GaugeVec
  cluster_state cluster_assigned_slots cluster_known_nodes : GaugeVec
  cluster_master_count cluster_replica_count : GaugeVec

pub data HistogramVec : Type 0 where
  reconcile_duration cluster_scaling_duration : HistogramVec
  cluster_slot_migration_duration cluster_failover_duration : HistogramVec

abbrev of_cluster : List Str
of_cluster = codes "name" ∷ codes "namespace" ∷ []

abbrev of_scaling : List Str
of_scaling = codes "name" ∷ codes "namespace" ∷ codes "direction" ∷ []

-- The name under which a vector is exported, and the names of its labels.
unfoldable pub counter_opts : CounterVec → Str × List Str
counter_opts CounterVec.reconcile_total =
    (codes "redis_operator_reconcile_total", codes "kind" ∷ codes "result" ∷ [])
counter_opts CounterVec.reconcile_errors =
    (codes "redis_operator_reconcile_errors_total", codes "kind" ∷ codes "error_type" ∷ [])
counter_opts CounterVec.cluster_scaling_operations =
    (codes "redis_cluster_scaling_operations_total", of_scaling)
counter_opts CounterVec.cluster_slot_migration_total =
    (codes "redis_cluster_slot_migration_total", of_cluster)
counter_opts CounterVec.cluster_failover_total = (codes "redis_cluster_failover_total", of_cluster)

unfoldable pub gauge_opts : GaugeVec → Str × List Str
gauge_opts GaugeVec.managed_clusters = (codes "redis_operator_managed_clusters_total", [])
gauge_opts GaugeVec.managed_sentinels = (codes "redis_operator_managed_sentinels_total", [])
gauge_opts GaugeVec.managed_standalone = (codes "redis_operator_managed_standalone_total", [])
gauge_opts GaugeVec.cluster_state = (codes "redis_cluster_state", of_cluster)
gauge_opts GaugeVec.cluster_assigned_slots = (codes "redis_cluster_assigned_slots", of_cluster)
gauge_opts GaugeVec.cluster_known_nodes = (codes "redis_cluster_known_nodes", of_cluster)
gauge_opts GaugeVec.cluster_master_count = (codes "redis_cluster_master_count", of_cluster)
gauge_opts GaugeVec.cluster_replica_count = (codes "redis_cluster_replica_count", of_cluster)

unfoldable pub histogram_opts : HistogramVec → Str × List Str
histogram_opts HistogramVec.reconcile_duration =
    (codes "redis_operator_reconcile_duration_seconds", codes "kind" ∷ [])
histogram_opts HistogramVec.cluster_scaling_duration =
    (codes "redis_cluster_scaling_duration_seconds", of_scaling)
histogram_opts HistogramVec.cluster_slot_migration_duration =
    (codes "redis_cluster_slot_migration_duration_seconds", of_cluster)
histogram_opts HistogramVec.cluster_failover_duration =
    (codes "redis_cluster_failover_duration_seconds", of_cluster)

-- A number for each vector, to compare them.
abbrev counter_index : CounterVec → ℕ
counter_index CounterVec.reconcile_total = 0
counter_index CounterVec.reconcile_errors = 1
counter_index CounterVec.cluster_scaling_operations = 2
counter_index CounterVec.cluster_slot_migration_total = 3
counter_index CounterVec.cluster_failover_total = 4

abbrev gauge_index : GaugeVec → ℕ
gauge_index GaugeVec.managed_clusters = 0
gauge_index GaugeVec.managed_sentinels = 1
gauge_index GaugeVec.managed_standalone = 2
gauge_index GaugeVec.cluster_state = 3
gauge_index GaugeVec.cluster_assigned_slots = 4
gauge_index GaugeVec.cluster_known_nodes = 5
gauge_index GaugeVec.cluster_master_count = 6
gauge_index GaugeVec.cluster_replica_count = 7

abbrev histogram_index : HistogramVec → ℕ
histogram_index HistogramVec.reconcile_duration = 0
histogram_index HistogramVec.cluster_scaling_duration = 1
histogram_index HistogramVec.cluster_slot_migration_duration = 2
histogram_index HistogramVec.cluster_failover_duration = 3

unfoldable pub labels_eq : List Str → List Str → Bool
unfolding str_eq
labels_eq [] [] = true
labels_eq (s ∷ ss) (t ∷ ts) = str_eq s t && labels_eq ss ts
labels_eq [] (t ∷ ts) = false
labels_eq (s ∷ ss) [] = false

abbrev pub same_counter : CounterVec → List Str → CounterVec → List Str → Bool
same_counter c ls d ks = counter_index c == counter_index d && labels_eq ls ks

abbrev pub same_gauge : GaugeVec → List Str → GaugeVec → List Str → Bool
same_gauge c ls d ks = gauge_index c == gauge_index d && labels_eq ls ks

abbrev pub same_histogram : HistogramVec → List Str → HistogramVec → List Str → Bool
same_histogram c ls d ks = histogram_index c == histogram_index d && labels_eq ls ks

-- `WithLabelValues(…).Inc()`, `.Set(v)` and `.Observe(v)`, `DeleteLabelValues(…)`, and what is exported:
-- the value of a counter, that of a gauge if it has the series, and the number of observations.
pub record Registry (S : Type 0) : Type 0 where
  pub inc : CounterVec → List Str → S → S
  pub set_gauge : GaugeVec → List Str → ℤ → S → S
  pub observe : HistogramVec → List Str → ℕ → S → S
  pub delete_label_values : GaugeVec → List Str → S → S
  pub counter : CounterVec → List Str → S → ℕ
  pub gauge : GaugeVec → List Str → S → Option ℤ
  pub observations : HistogramVec → List Str → S → ℕ

-- An update changes the series with its vector and its labels, and nothing else.
pub record IsRegistry {S : Type 0} (r : Registry S) : Type 0 where
  pub counter-inc :
      (c : CounterVec) (ls : List Str) (d : CounterVec) (ks : List Str) (s : S)
      → r.counter c ls (r.inc d ks s)
        ≡ (if same_counter c ls d ks then suc (r.counter c ls s) else r.counter c ls s)
  pub counter-set_gauge :
      (c : CounterVec) (ls : List Str) (d : GaugeVec) (ks : List Str) (v : ℤ) (s : S)
      → r.counter c ls (r.set_gauge d ks v s) ≡ r.counter c ls s
  pub counter-observe :
      (c : CounterVec) (ls : List Str) (d : HistogramVec) (ks : List Str) (v : ℕ) (s : S)
      → r.counter c ls (r.observe d ks v s) ≡ r.counter c ls s
  pub counter-delete :
      (c : CounterVec) (ls : List Str) (d : GaugeVec) (ks : List Str) (s : S)
      → r.counter c ls (r.delete_label_values d ks s) ≡ r.counter c ls s
  pub gauge-set_gauge :
      (c : GaugeVec) (ls : List Str) (d : GaugeVec) (ks : List Str) (v : ℤ) (s : S)
      → r.gauge c ls (r.set_gauge d ks v s)
        ≡ (if same_gauge c ls d ks then some v else r.gauge c ls s)
  pub gauge-delete :
      (c : GaugeVec) (ls : List Str) (d : GaugeVec) (ks : List Str) (s : S)
      → r.gauge c ls (r.delete_label_values d ks s)
        ≡ (if same_gauge c ls d ks then none else r.gauge c ls s)
  pub gauge-inc :
      (c : GaugeVec) (ls : List Str) (d : CounterVec) (ks : List Str) (s : S)
      → r.gauge c ls (r.inc d ks s) ≡ r.gauge c ls s
  pub gauge-observe :
      (c : GaugeVec) (ls : List Str) (d : HistogramVec) (ks : List Str) (v : ℕ) (s : S)
      → r.gauge c ls (r.observe d ks v s) ≡ r.gauge c ls s
  pub observations-observe :
      (c : HistogramVec) (ls : List Str) (d : HistogramVec) (ks : List Str) (v : ℕ) (s : S)
      → r.observations c ls (r.observe d ks v s)
        ≡ (if same_histogram c ls d ks then suc (r.observations c ls s) else r.observations c ls s)
  pub observations-inc :
      (c : HistogramVec) (ls : List Str) (d : CounterVec) (ks : List Str) (s : S)
      → r.observations c ls (r.inc d ks s) ≡ r.observations c ls s
  pub observations-set_gauge :
      (c : HistogramVec) (ls : List Str) (d : GaugeVec) (ks : List Str) (v : ℤ) (s : S)
      → r.observations c ls (r.set_gauge d ks v s) ≡ r.observations c ls s
  pub observations-delete :
      (c : HistogramVec) (ls : List Str) (d : GaugeVec) (ks : List Str) (s : S)
      → r.observations c ls (r.delete_label_values d ks s) ≡ r.observations c ls s
