-- ===== src/Controller/Cluster/Requeued.antt =====
-- That a cluster is looked at again.
use kubernetes_redis_operato.Prelude.{true, ℕ, zero, suc, false, ◌≡◌, ◌∷◌, ◌⊎◌, inr}
use kubernetes_redis_operato.Go.Text.{Str}
use kubernetes_redis_operato.Api.Types.{Phase}
use kubernetes_redis_operato.Api.Objects.{Meta, RedisCluster}
use kubernetes_redis_operato.Redis.Effect.{
  Error, Result, Command, Log, M, pure, and_then, ◌>>=◌, ◌>>◌,
}
use kubernetes_redis_operato.Redis.Client.{RedisClient, Runtime}
use kubernetes_redis_operato.Controller.Kube.{Kube, Requeue, update_object, update_status}
use kubernetes_redis_operato.Controller.Lifecycle.{reconcile_cluster_lifecycle}
use kubernetes_redis_operato.Controller.Failover.{try_cluster_rolling_failover}
use kubernetes_redis_operato.Controller.Reload.{try_cluster_hot_reload}
use kubernetes_redis_operato.Controller.Status.{update_cluster_status}
use kubernetes_redis_operato.Controller.Cluster.{
  with_phase, or_later, requeue_of, apply_cluster, manage_cluster, reconcile_live_cluster,
  reconcile_cluster,
}
use kubernetes_redis_operato.Controller.Reconcile.{starting}
use kubernetes_redis_operato.Controller.Reconcile.Live.{IsLater, reconcile_object-kept}

-- The object is looked at again if the run returns without an error. It may halt, in the lifecycle.
abbrev pub IsRequeued : Result Requeue → Type 0
IsRequeued (Result.ok q) = IsLater q
IsRequeued (Result.err e) = Unit
IsRequeued (Result.halt h) = Unit

abbrev Requeued : Type 0
Requeued = (m : M Requeue) × ((l : Log) → IsRequeued (m l).0)

and_then-IsRequeued :
    {A : Type 0} (r : Result A × Log) (f : A → M Requeue)
    → ((a : A) (l : Log) → IsRequeued (f a l).0)
    → IsRequeued (and_then r f).0
and_then-IsRequeued (Result.ok a, l) f h = h a l
and_then-IsRequeued (Result.err e, l) f h = tt
and_then-IsRequeued (Result.halt x, l) f h = tt

-- One step, whatever it returns, and what follows it.
abbrev step : {A : Type 0} → M A → (A → Requeued) → Requeued
step m f = (m >>= (λ a. (f a).0), λ l. and_then-IsRequeued (m l) (λ a. (f a).0) (λ a. (f a).1))

or_later-IsLater : (q : Requeue) → IsLater (or_later q)
or_later-IsLater Requeue.done = tt
or_later-IsLater Requeue.again = tt
or_later-IsLater (Requeue.after zero) = tt
or_later-IsLater (Requeue.after (suc n)) = tt

module _ (k : Kube) (rt : Runtime) (c : RedisClient) (sha256_hex : Str → Str) (fuel : ℕ) where
  manage_cluster-IsRequeued :
      (m : Meta) (rc : RedisCluster) (hash : Str) (l : Log)
      → IsRequeued (manage_cluster k rt c sha256_hex fuel m rc hash l).0
  unfolding manage_cluster
  manage_cluster-IsRequeued m rc hash =
      (step (reconcile_cluster_lifecycle rt c k fuel rc) (λ o.
        step (try_cluster_rolling_failover rt c k m (with_phase rc o.phase) hash) (λ phase.
          step (try_cluster_hot_reload rt c rc) (λ _.
            step (update_cluster_status c k (with_phase rc phase)) (λ s.
              step (update_status k s.phase)
                (λ _. (pure (requeue_of o), λ l. or_later-IsLater o.requeue))))))).1

  started-IsRequeued :
      (m : Meta) (rc : RedisCluster) (phase : Phase) (l : Log)
      → IsRequeued
          (((apply_cluster k rt c sha256_hex fuel (with_phase rc phase))
              >>= manage_cluster k rt c sha256_hex fuel m (with_phase rc phase))
            l).0
  started-IsRequeued m rc phase =
      (step (apply_cluster k rt c sha256_hex fuel (with_phase rc phase)) (λ hash. (
        manage_cluster k rt c sha256_hex fuel m (with_phase rc phase) hash,
        manage_cluster-IsRequeued m (with_phase rc phase) hash,
      ))).1

  starting-IsRequeued :
      (phase : Phase) (next : Phase → M Requeue)
      → ((p : Phase) (l : Log) → IsRequeued (next p l).0)
      → (l : Log) → IsRequeued (starting k phase next l).0
  starting-IsRequeued Phase.unset next h =
      (step (update_status k Phase.initializing)
        (λ _. (next Phase.initializing, h Phase.initializing))).1
  starting-IsRequeued Phase.initializing next h = h Phase.initializing
  starting-IsRequeued Phase.ready next h = h Phase.ready
  starting-IsRequeued Phase.failed next h = h Phase.failed
  starting-IsRequeued Phase.scaling next h = h Phase.scaling
  starting-IsRequeued Phase.recovering next h = h Phase.recovering

  reconcile_live_cluster-IsRequeued :
      (m : Meta) (rc : RedisCluster) (l : Log)
      → IsRequeued (reconcile_live_cluster k rt c sha256_hex fuel m rc l).0
  unfolding reconcile_live_cluster
  reconcile_live_cluster-IsRequeued m rc = starting-IsRequeued rc.phase _ (started-IsRequeued m rc)

  add_finalizer-IsRequeued :
      (l : Log) → IsRequeued ((update_object k true >> pure Requeue.again) l).0
  add_finalizer-IsRequeued = (step (update_object k true) (λ _. (pure Requeue.again, λ l. tt))).1

  -- If the object is read and is not being deleted, and the reconciliation of a cluster returns without
  -- an error, it asks for a requeue at once or after some time. Panics and missing fuel in the lifecycle
  -- are not excluded.
  pub reconcile_cluster-IsRequeued :
      (fetch : Log → Error ⊎ (Meta × RedisCluster)) (l : Log) (m : Meta) (rc : RedisCluster)
      → fetch (Command.get_object ∷ l) ≡ inr (m, rc)
      → m.deleting ≡ false
      → IsRequeued (reconcile_cluster k rt c sha256_hex fuel fetch l).0
  unfolding reconcile_cluster
  reconcile_cluster-IsRequeued fetch =
      reconcile_object-kept k IsRequeued add_finalizer-IsRequeued fetch _
        (reconcile_live_cluster k rt c sha256_hex fuel) reconcile_live_cluster-IsRequeued
