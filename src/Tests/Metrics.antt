-- ===== src/Tests/Metrics.antt =====
-- A registry of metrics as functions, and the theorems on metrics at it.
use kubernetes_redis_operato.Prelude.{
  ℕ, suc, ◌≡◌, refl, true, Option, none, some, List, [], ◌∷◌, arith, if◌then◌else◌,
}
use kubernetes_redis_operato.Prelude.Int.{ℤ, pos}
use kubernetes_redis_operato.Go.Text.{Str, codes}
use kubernetes_redis_operato.Api.Objects.{Meta}
use kubernetes_redis_operato.Redis.Effect.{Error, Result, Log}
use kubernetes_redis_operato.Metrics.Vectors.{
  CounterVec, GaugeVec, HistogramVec, Registry, IsRegistry, same_counter, same_gauge,
  same_histogram, labels_eq,
}
use kubernetes_redis_operato.Metrics.Recorder.{Kind, cluster_labels}
use kubernetes_redis_operato.Metrics.Counted.{
  Activity, perform_all, IsCounted, perform_all-IsCounted,
}
use kubernetes_redis_operato.Controller.Kube.{Requeue}
use kubernetes_redis_operato.Controller.Metered.{
  reconcile_redis_entry, reconcile_sentinel_entry, reconcile_cluster_entry,
}
use kubernetes_redis_operato.Controller.Metered.Runs.{state, IsRun, reconcile_entry-IsRun}
use kubernetes_redis_operato.Controller.Metered.Forgotten.{reconcile_cluster_entry-gauge}
use kubernetes_redis_operato.Tests.World.{accepts, world, runtime}
use kubernetes_redis_operato.Tests.Objects.{server, watched, cluster, present, kube, same_text}

record Shown : Type 0 where
  counters : CounterVec → List Str → ℕ
  gauges : GaugeVec → List Str → Option ℤ
  seconds : HistogramVec → List Str → ℕ

abbrev registry : Registry Shown
registry = record {
  inc = λ d ks s. record s {
    counters = λ c ls. if same_counter c ls d ks then suc (s.counters c ls) else s.counters c ls;
  };
  set_gauge = λ d ks v s. record s {
    gauges = λ c ls. if same_gauge c ls d ks then some v else s.gauges c ls;
  };
  observe = λ d ks v s. record s {
    seconds = λ c ls. if same_histogram c ls d ks then suc (s.seconds c ls) else s.seconds c ls;
  };
  delete_label_values =
      λ d ks s. record s { gauges = λ c ls. if same_gauge c ls d ks then none else s.gauges c ls };
  counter = λ c ls s. s.counters c ls;
  gauge = λ c ls s. s.gauges c ls;
  observations = λ c ls s. s.seconds c ls;
}

registry-IsRegistry : IsRegistry registry
registry-IsRegistry = record {
  counter-inc = λ c ls d ks s. refl;
  counter-set_gauge = λ c ls d ks v s. refl;
  counter-observe = λ c ls d ks v s. refl;
  counter-delete = λ c ls d ks s. refl;
  gauge-set_gauge = λ c ls d ks v s. refl;
  gauge-delete = λ c ls d ks s. refl;
  gauge-inc = λ c ls d ks s. refl;
  gauge-observe = λ c ls d ks v s. refl;
  observations-observe = λ c ls d ks v s. refl;
  observations-inc = λ c ls d ks s. refl;
  observations-set_gauge = λ c ls d ks v s. refl;
  observations-delete = λ c ls d ks s. refl;
}

-- Nothing has been counted.
abbrev fresh : Shown
fresh = record { counters = λ c ls. 0; gauges = λ c ls. none; seconds = λ c ls. 0 }

fresh-IsCounted : (kind : Kind) → IsCounted registry kind fresh 0 0
fresh-IsCounted kind = ground arith

abbrev calls : List Activity
calls =
    Activity.reconciled Kind.redis_cluster 3 none
    ∷ Activity.failed_over (codes "cache") (codes "prod")
    ∷ Activity.reconciled Kind.redis 2 none
    ∷ Activity.reconciled Kind.redis_cluster 5 (some (Error.external 1))
    ∷ Activity.reconciled Kind.redis_cluster 4 none
    ∷ []

perform_all-IsCounted_example :
    IsCounted registry Kind.redis_cluster (perform_all registry calls fresh) 2 1
perform_all-IsCounted_example =
    perform_all-IsCounted registry registry-IsRegistry Kind.redis_cluster calls fresh 0 0
      (fresh-IsCounted Kind.redis_cluster)

-- Nothing is slow.
abbrev at_once : Log → ℕ
at_once l = 0

abbrev going : Meta
going = record { deleting = true; finalizer = true; annotations = [] }

reconcile_entry-IsRun_example :
    IsRun registry registry-IsRegistry Kind.redis 0 0 (
      reconcile_redis_entry registry kube runtime none same_text at_once
        (accepts (present, server))
        fresh
        [])
    × IsRun registry registry-IsRegistry Kind.redis_sentinel 0 0 (
        reconcile_sentinel_entry registry kube runtime none same_text at_once
          (accepts (present, watched))
          fresh
          [])
    × IsRun registry registry-IsRegistry Kind.redis_cluster 0 0 (
        reconcile_cluster_entry registry kube runtime world same_text 100 at_once at_once
          (accepts (going, cluster))
          fresh
          [])
reconcile_entry-IsRun_example =
    reconcile_entry-IsRun registry registry-IsRegistry kube runtime same_text none world 100 at_once
      at_once (accepts (present, server)) (accepts (present, watched)) (accepts (going, cluster))
      fresh [] (λ kind. 0) (λ kind. 0) fresh-IsCounted

-- The cluster has been shown before.
abbrev busy : Shown
busy =
    registry.set_gauge GaugeVec.cluster_state (cluster_labels (codes "cache") (codes "prod"))
      (pos 1) fresh

shown_before :
    registry.gauge GaugeVec.cluster_state (cluster_labels (codes "cache") (codes "prod")) busy
    ≡ some (pos 1)
unfolding labels_eq
shown_before = refl

deleted :
    (reconcile_cluster_entry registry kube runtime world same_text 100 at_once at_once
      (accepts (going, cluster))
      busy
      []).0
    ≡ Result.ok Requeue.done
unfolding reconcile_cluster_entry
deleted = refl

reconcile_cluster_entry-gauge_example :
    registry.gauge GaugeVec.cluster_state (cluster_labels (codes "cache") (codes "prod")) (
      state (
        reconcile_cluster_entry registry kube runtime world same_text 100 at_once at_once
          (accepts (going, cluster))
          busy
          []))
    ≡ none
unfolding labels_eq
reconcile_cluster_entry-gauge_example =
    reconcile_cluster_entry-gauge registry registry-IsRegistry kube runtime world same_text 100
      at_once at_once (accepts (going, cluster)) busy [] going cluster Requeue.done refl refl refl
      deleted GaugeVec.cluster_state (cluster_labels (codes "cache") (codes "prod"))
