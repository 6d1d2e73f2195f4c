-- ===== src/Controller/Metered.antt =====
-- The entry points `Reconcile` of the three controllers of internal/controller, which count and time
-- each run, and the places of rediscluster_controller.go at which the metrics of a cluster are
-- updated. A run carries the state of the registry of metrics along.
pub mod Runs
pub mod Forgotten
use kubernetes_redis_operato.Prelude.{
  ℕ, Bool, true, false, Option, none, some, List, [], ◌∷◌, length, ◌⊎◌, inl, inr, if◌then◌else◌,
}
use kubernetes_redis_operato.Prelude.Int.{ℤ, pos}
use kubernetes_redis_operato.Go.Text.{Str, codes}
use kubernetes_redis_operato.Go.Word.{int32}
use kubernetes_redis_operato.Api.Types.{Phase}
use kubernetes_redis_operato.Api.Objects.{Meta, RedisInstance, RedisSentinel, RedisCluster}
use kubernetes_redis_operato.Redis.Effect.{
  Error, Result, Command, Log, M, call, attempt, pure, fail,
}
use kubernetes_redis_operato.Redis.Client.{RedisClient, Runtime}
use kubernetes_redis_operato.Resources.Labels.{label_cluster}
use kubernetes_redis_operato.Metrics.Vectors.{Registry}
use kubernetes_redis_operato.Metrics.Recorder.{
  Kind, record_reconcile, set_cluster_metrics, record_cluster_scaling, record_cluster_failover,
  delete_cluster_metrics,
}
use kubernetes_redis_operato.Controller.Kube.{Kube, Requeue, update_object, update_status}
use kubernetes_redis_operato.Controller.Lifecycle.{Event, Outcome, reconcile_cluster_lifecycle}
use kubernetes_redis_operato.Controller.Failover.{try_cluster_rolling_failover}
use kubernetes_redis_operato.Controller.Reload.{try_cluster_hot_reload}
use kubernetes_redis_operato.Controller.Status.{RedisClusterStatus, update_cluster_status}
use kubernetes_redis_operato.Controller.Reconcile.{
  starting, delete_listed, unless_kept, finish_deletion,
}
use kubernetes_redis_operato.Controller.Standalone.{reconcile_redis}
use kubernetes_redis_operato.Controller.Sentinel.{reconcile_sentinel}
use kubernetes_redis_operato.Controller.Cluster.{with_phase, requeue_of, apply_cluster}

abbrev pub Metered : Type 0 → Type 0 → Type 0
Metered S A = S → Log → Result A × Log × S

abbrev pub beside : {S A : Type 0} → S → Result A × Log → Result A × Log × S
beside s (r, l) = (r, l, s)

-- A part that updates no metric.
abbrev pub quietly : {S A : Type 0} → M A → Metered S A
quietly m s l = beside s (m l)

abbrev pub recording : {S : Type 0} → (S → S) → Metered S (Unit {0})
recording f s l = (Result.ok tt, l, f s)

abbrev pub and_after :
    {S A B : Type 0} → Result A × Log × S → (A → Metered S B) → Result B × Log × S
and_after (Result.ok a, l, s) f = f a s l
and_after (Result.err e, l, s) f = (Result.err e, l, s)
and_after (Result.halt h, l, s) f = (Result.halt h, l, s)

infixl 5 ◌>>=◌ ◌>>◌
abbrev pub ◌>>=◌ : {S A B : Type 0} → Metered S A → (A → Metered S B) → Metered S B
◌>>=◌ m f s l = and_after (m s l) f

abbrev pub ◌>>◌ : {S B : Type 0} → Metered S (Unit {0}) → Metered S B → Metered S B
m >> k = m >>= λ _. k

module _ {S : Type 0} (r : Registry S) where
  -- `since` is `time.Since(start)`. A panic leaves `Reconcile` before it records the run.
  abbrev pub recorded : Kind → (Log → ℕ) → Result Requeue × Log × S → Result Requeue × Log × S
  recorded kind since (Result.ok q, l, s) =
      (Result.ok q, l, record_reconcile r kind (since l) none s)
  recorded kind since (Result.err e, l, s) =
      (Result.err e, l, record_reconcile r kind (since l) (some e) s)
  recorded kind since (Result.halt h, l, s) = (Result.halt h, l, s)

  -- What the three functions `Reconcile` have in common.
  abbrev pub reconcile_recorded : Kind → (Log → ℕ) → Metered S Requeue → Metered S Requeue
  reconcile_recorded kind since m s l = recorded kind since (m s l)

  -- Each event of a scaling or a failure stands beside the update of a metric.
  abbrev event_metrics : RedisCluster → ℕ → Event → S → S
  event_metrics rc took (Event.scale_out a b) s =
      record_cluster_scaling r rc.name rc.namespace (codes "out") took s
  event_metrics rc took (Event.scale_in a b) s =
      record_cluster_scaling r rc.name rc.namespace (codes "in") took s
  event_metrics rc took Event.cluster_failing s = record_cluster_failover r rc.name rc.namespace s
  event_metrics rc took Event.formation_failed s = s
  event_metrics rc took Event.cluster_formed s = s
  event_metrics rc took Event.cluster_recovered s = s

  unfoldable pub lifecycle_metrics : RedisCluster → ℕ → List Event → S → S
  unfolding record_cluster_scaling record_cluster_failover
  lifecycle_metrics rc took [] s = s
  lifecycle_metrics rc took (e ∷ es) s = lifecycle_metrics rc took es (event_metrics rc took e s)

  unfoldable pub status_metrics : RedisCluster → RedisClusterStatus → S → S
  unfolding set_cluster_metrics int32
  status_metrics rc st s =
      set_cluster_metrics r rc.name rc.namespace st.cluster_state st.assigned_slots
        (int32 (pos (length st.nodes))) st.ready_masters st.ready_replicas s

  module _ (k : Kube) where
    unfoldable pub reconcile_redis_entry :
        Runtime
        → Option RedisClient
        → (Str → Str)
        → (Log → ℕ)
        → (Log → Error ⊎ (Meta × RedisInstance))
        → Metered S Requeue
    unfolding reconcile_redis record_reconcile
    reconcile_redis_entry rt client sha256_hex since fetch =
        reconcile_recorded Kind.redis since (quietly (reconcile_redis k rt client sha256_hex fetch))

    unfoldable pub reconcile_sentinel_entry :
        Runtime
        → Option RedisClient
        → (Str → Str)
        → (Log → ℕ)
        → (Log → Error ⊎ (Meta × RedisSentinel))
        → Metered S Requeue
    unfolding reconcile_sentinel record_reconcile
    reconcile_sentinel_entry rt client sha256_hex since fetch =
        reconcile_recorded Kind.redis_sentinel since
          (quietly (reconcile_sentinel k rt client sha256_hex fetch))

    -- `handleClusterDeletion` with the update of the gauges.
    unfoldable pub delete_metered_cluster : Meta → RedisCluster → Metered S Requeue
    unfolding delete_listed delete_cluster_metrics
    delete_metered_cluster m rc =
        if m.finalizer
        then (do
          quietly (unless_kept k rc.spec.storage (delete_listed k ((label_cluster, rc.name) ∷ [])))
          recording (delete_cluster_metrics r rc.name rc.namespace)
          quietly (finish_deletion k))
        else quietly (pure Requeue.done)

    module _ (rt : Runtime) (c : RedisClient) (sha256_hex : Str → Str) (fuel : ℕ)
        (since : Log → ℕ) where
      -- The servers, with the updates that the lifecycle and the status make. `took` stands for the
      -- time since the start of a scaling.
      unfoldable pub manage_metered_cluster :
          (Log → ℕ) → Meta → RedisCluster → Str → Metered S Requeue
      unfolding reconcile_cluster_lifecycle try_cluster_rolling_failover try_cluster_hot_reload
          update_cluster_status lifecycle_metrics status_metrics
      manage_metered_cluster took m rc hash = do
        o ← quietly (reconcile_cluster_lifecycle rt c k fuel rc)
        (λ s l. recording (lifecycle_metrics rc (took l) o.events) s l)
        phase ← quietly (try_cluster_rolling_failover rt c k m (with_phase rc o.phase) hash)
        quietly (try_cluster_hot_reload rt c rc)
        st ← quietly (update_cluster_status c k (with_phase rc phase))
        recording (status_metrics rc st)
        quietly (update_status k st.phase)
        quietly (pure (requeue_of o))

      unfoldable pub live_metered_cluster : (Log → ℕ) → Meta → RedisCluster → Metered S Requeue
      unfolding apply_cluster manage_metered_cluster
      live_metered_cluster took m rc = do
        phase ← quietly (starting k rc.phase pure)
        hash ← quietly (apply_cluster k rt c sha256_hex fuel (with_phase rc phase))
        manage_metered_cluster took m (with_phase rc phase) hash

      -- What is done with the answer to `Get`.
      abbrev pub metered_object :
          (Meta → RedisCluster → Metered S Requeue)
          → Error ⊎ (Meta × RedisCluster)
          → Metered S Requeue
      metered_object live (inl e) = quietly (if k.is_not_found e then pure Requeue.done else fail e)
      metered_object live (inr (m, rc)) =
          if m.deleting
          then delete_metered_cluster m rc
          else if m.finalizer
          then live m rc
          else quietly (update_object k true) >> quietly (pure Requeue.again)

      unfoldable pub reconcile_cluster_entry :
          (Log → ℕ) → (Log → Error ⊎ (Meta × RedisCluster)) → Metered S Requeue
      unfolding live_metered_cluster delete_metered_cluster record_reconcile
      reconcile_cluster_entry took fetch = reconcile_recorded Kind.redis_cluster since (
          quietly (attempt (call Command.get_object fetch))
          >>= metered_object (live_metered_cluster took))
