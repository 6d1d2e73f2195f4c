-- ===== src/Controller/Cluster.antt =====
-- `doReconcile` and `handleClusterDeletion` of internal/controller/rediscluster_controller.go, for a
-- reconciler that has a `RedisClient` and a `ClusterManager`. Logs and events are
-- left out; the metrics are in Controller/Metered.
pub mod Deletion
pub mod Requeued
pub mod Stuck
use kubernetes_redis_operato.Prelude.{zero, suc, ℕ, List, [], ◌∷◌, ◌⊎◌, if◌then◌else◌}
use kubernetes_redis_operato.Prelude.Int.{pos, ltb_ℤ}
use kubernetes_redis_operato.Go.Text.{Str}
use kubernetes_redis_operato.Api.Types.{Phase}
use kubernetes_redis_operato.Api.Objects.{Meta, RedisCluster}
use kubernetes_redis_operato.Redis.Effect.{Error, Log, M, pure, ◌>>=◌, ◌>>◌}
use kubernetes_redis_operato.Redis.Client.{RedisClient, Runtime}
use kubernetes_redis_operato.Resources.Labels.{component_master, component_replica, label_cluster}
use kubernetes_redis_operato.Resources.Object.{Resource}
use kubernetes_redis_operato.Resources.Config.{Visit, build_cluster_config_map}
use kubernetes_redis_operato.Resources.Service.{
  build_headless_service, build_cluster_client_service,
}
use kubernetes_redis_operato.Resources.Budget.{build_cluster_master_pdb, build_cluster_replica_pdb}
use kubernetes_redis_operato.Resources.Monitor.{build_cluster_service_monitor}
use kubernetes_redis_operato.Resources.Workload.{
  build_cluster_master_stateful_set, build_cluster_replica_stateful_set,
}
use kubernetes_redis_operato.Controller.Kube.{Kube, Requeue, apply, update_status}
use kubernetes_redis_operato.Controller.Lifecycle.{Outcome, reconcile_cluster_lifecycle}
use kubernetes_redis_operato.Controller.Failover.{try_cluster_rolling_failover}
use kubernetes_redis_operato.Controller.Reload.{try_cluster_hot_reload}
use kubernetes_redis_operato.Controller.Status.{update_cluster_status}
use kubernetes_redis_operato.Controller.Reconcile.{
  visiting, reconcile_object, starting, or_failed, apply_config_map, apply_all, when_exporting,
  delete_listed, unless_kept, finish_deletion,
}

abbrev pub with_phase : RedisCluster → Phase → RedisCluster
with_phase rc phase = record rc { phase = phase }

-- A requeue that the lifecycle asks for, and one after 30 seconds if it asks for none.
abbrev pub or_later : Requeue → Requeue
or_later Requeue.done = Requeue.after 30
or_later Requeue.again = Requeue.again
or_later (Requeue.after zero) = Requeue.after 30
or_later (Requeue.after (suc n)) = Requeue.after (suc n)

abbrev pub requeue_of : Outcome → Requeue
requeue_of o = or_later o.requeue

-- Services and disruption budgets, in the order in which they are applied.
unfoldable pub cluster_objects : RedisCluster → List Resource
unfolding build_headless_service build_cluster_client_service build_cluster_master_pdb
    build_cluster_replica_pdb
cluster_objects rc =
    Resource.service (build_headless_service rc.name rc.namespace component_master)
    ∷ Resource.service (build_headless_service rc.name rc.namespace component_replica)
    ∷ Resource.service (build_cluster_client_service rc)
    ∷ Resource.budget (build_cluster_master_pdb rc)
    ∷ Resource.budget (build_cluster_replica_pdb rc)
    ∷ []

module _ (k : Kube) where
  unfoldable pub handle_cluster_deletion : Meta → RedisCluster → M Requeue
  unfolding delete_listed
  handle_cluster_deletion m rc =
      if m.finalizer
      then unless_kept k rc.spec.storage (delete_listed k ((label_cluster, rc.name) ∷ []))
        >> finish_deletion k
      else pure Requeue.done

  abbrev pub reconcile_cluster_replica_stateful_set : RedisCluster → Str → M (Unit {0})
  reconcile_cluster_replica_stateful_set rc hash =
      apply k (Resource.stateful_set (build_cluster_replica_stateful_set rc) hash)

  abbrev pub apply_replica_set : RedisCluster → Str → M (Unit {0})
  apply_replica_set rc hash =
      if ltb_ℤ (pos 0) rc.spec.replicas_per_master
      then reconcile_cluster_replica_stateful_set rc hash
      else pure tt

  module _ (rt : Runtime) (c : RedisClient) (sha256_hex : Str → Str) (fuel : ℕ) where
    -- Each of the following creates or updates one object; what it makes of an object that exists is
    -- in Controller/Apply.antt.
    abbrev pub reconcile_cluster_config_map : Visit → RedisCluster → M Str
    reconcile_cluster_config_map visit rc =
        apply_config_map k sha256_hex visit (build_cluster_config_map visit rc)

    abbrev pub reconcile_cluster_master_stateful_set : RedisCluster → Str → M (Unit {0})
    reconcile_cluster_master_stateful_set rc hash =
        apply k (Resource.stateful_set (build_cluster_master_stateful_set rc) hash)

    abbrev pub reconcile_cluster_service_monitor : RedisCluster → M (Unit {0})
    reconcile_cluster_service_monitor rc =
        apply k (Resource.service_monitor (build_cluster_service_monitor rc))

    -- Everything that Kubernetes keeps for the cluster; the result is the hash of the configuration.
    unfoldable pub apply_cluster : RedisCluster → M Str
    unfolding build_cluster_config_map build_cluster_replica_stateful_set cluster_objects apply_all
        build_cluster_service_monitor
    apply_cluster rc = do
      visit ← visiting rt
      hash ← or_failed k (reconcile_cluster_config_map visit rc)
      reconcile_cluster_master_stateful_set rc hash
      apply_replica_set rc hash
      apply_all k (cluster_objects rc)
      when_exporting k rc.spec.enable_exporter (reconcile_cluster_service_monitor rc)
      pure hash

    -- The servers: the lifecycle, and what is tried after it. The status starts from the phase that
    -- they leave in memory.
    unfoldable pub manage_cluster : Meta → RedisCluster → Str → M Requeue
    unfolding reconcile_cluster_lifecycle try_cluster_rolling_failover try_cluster_hot_reload
        update_cluster_status
    manage_cluster m rc hash = do
      o ← reconcile_cluster_lifecycle rt c k fuel rc
      phase ← try_cluster_rolling_failover rt c k m (with_phase rc o.phase) hash
      try_cluster_hot_reload rt c rc
      s ← update_cluster_status c k (with_phase rc phase)
      update_status k s.phase
      pure (requeue_of o)

    unfoldable pub reconcile_live_cluster : Meta → RedisCluster → M Requeue
    unfolding apply_cluster manage_cluster
    reconcile_live_cluster m rc = starting k rc.phase (λ phase. do
      hash ← apply_cluster (with_phase rc phase)
      manage_cluster m (with_phase rc phase) hash)

    -- `doReconcile`
    unfoldable pub reconcile_cluster : (Log → Error ⊎ (Meta × RedisCluster)) → M Requeue
    unfolding handle_cluster_deletion reconcile_live_cluster
    reconcile_cluster fetch =
        reconcile_object k fetch handle_cluster_deletion reconcile_live_cluster
