-- ===== src/Controller/Metered/Runs.antt =====
-- What a run of a controller adds to the counters of internal/metrics.
use native.Mathlib.Nat.{add-zero}
use kubernetes_redis_operato.Prelude.{
  ℕ, ◌+◌, Bool, true, false, Option, none, some, List, [], ◌∷◌, length, ◌⊎◌, inl, inr,
  if◌then◌else◌,
}
use kubernetes_redis_operato.Go.Text.{Str, codes}
use kubernetes_redis_operato.Go.Word.{int32}
use kubernetes_redis_operato.Prelude.Int.{pos}
use kubernetes_redis_operato.Api.Objects.{Meta, RedisInstance, RedisSentinel, RedisCluster}
use kubernetes_redis_operato.Redis.Effect.{Error, Result, Command, Log, M, call, attempt, pure}
use kubernetes_redis_operato.Redis.Client.{RedisClient, Runtime}
use kubernetes_redis_operato.Resources.Labels.{label_cluster}
use kubernetes_redis_operato.Metrics.Vectors.{Registry, IsRegistry}
use kubernetes_redis_operato.Metrics.Recorder.{Kind, delete_cluster_metrics}
use kubernetes_redis_operato.Metrics.Counted.{
  Activity, perform, IsCounted, perform-IsCounted, record_reconcile-IsCounted,
}
use kubernetes_redis_operato.Controller.Kube.{Kube, Requeue, update_object, update_status}
use kubernetes_redis_operato.Controller.Lifecycle.{Event, reconcile_cluster_lifecycle}
use kubernetes_redis_operato.Controller.Failover.{try_cluster_rolling_failover}
use kubernetes_redis_operato.Controller.Reload.{try_cluster_hot_reload}
use kubernetes_redis_operato.Controller.Status.{RedisClusterStatus, update_cluster_status}
use kubernetes_redis_operato.Controller.Reconcile.{
  starting, delete_listed, unless_kept, finish_deletion,
}
use kubernetes_redis_operato.Controller.Standalone.{reconcile_redis}
use kubernetes_redis_operato.Controller.Sentinel.{reconcile_sentinel}
use kubernetes_redis_operato.Controller.Cluster.{with_phase, requeue_of, apply_cluster}
use kubernetes_redis_operato.Controller.Metered.{
  Metered, beside, quietly, recording, and_after, ◌>>=◌, ◌>>◌, recorded, lifecycle_metrics,
  status_metrics, delete_metered_cluster, manage_metered_cluster, live_metered_cluster,
  metered_object, reconcile_cluster_entry, reconcile_redis_entry, reconcile_sentinel_entry,
}

-- The state of the registry behind a run.
abbrev pub state : {S A : Type 0} → Result A × Log × S → S
state (a, l, s) = s

module _ {S : Type 0} (r : Registry S) (h : IsRegistry r) (kind : Kind) where
  -- A run that returns is counted once, by its result; one that panics is not.
  abbrev pub IsRun : ℕ → ℕ → Result Requeue × Log × S → Type 0
  IsRun good bad (Result.ok q, l, s) = IsCounted r kind s (good + 1) bad
  IsRun good bad (Result.err e, l, s) = IsCounted r kind s good (bad + 1)
  IsRun good bad (Result.halt x, l, s) = IsCounted r kind s good bad

  recorded-IsRun :
      (since : Log → ℕ) (good bad : ℕ) (x : Result Requeue × Log × S)
      → IsCounted r kind (state x) good bad
      → IsRun good bad (recorded r kind since x)
  recorded-IsRun since good bad (Result.ok q, l, s) v =
      rw (← add-zero bad) (record_reconcile-IsCounted r h kind (since l) none s good bad v)
  recorded-IsRun since good bad (Result.err e, l, s) v =
      rw (← add-zero good) (record_reconcile-IsCounted r h kind (since l) (some e) s good bad v)
  recorded-IsRun since good bad (Result.halt x, l, s) v = v

  drop_zero :
      {s : S} (good bad : ℕ) → IsCounted r kind s (good + 0) (bad + 0) → IsCounted r kind s good bad
  drop_zero good bad v = rw (add-zero good, add-zero bad) at v

  -- What is counted stays.
  abbrev Keeps : (S → S) → Type 0
  Keeps f = (s : S) (good bad : ℕ) → IsCounted r kind s good bad → IsCounted r kind (f s) good bad

  lifecycle_metrics-Keeps :
      (rc : RedisCluster) (took : ℕ) (es : List Event) → Keeps (lifecycle_metrics r rc took es)
  unfolding lifecycle_metrics perform
  lifecycle_metrics-Keeps rc took [] s good bad v = v
  lifecycle_metrics-Keeps rc took (Event.scale_out a b ∷ es) s good bad v =
      lifecycle_metrics-Keeps rc took es _ good bad (
        drop_zero good bad (
          perform-IsCounted r h kind (Activity.scaled rc.name rc.namespace (codes "out") took) s
            good bad v))
  lifecycle_metrics-Keeps rc took (Event.scale_in a b ∷ es) s good bad v =
      lifecycle_metrics-Keeps rc took es _ good bad (
        drop_zero good bad (
          perform-IsCounted r h kind (Activity.scaled rc.name rc.namespace (codes "in") took) s good
            bad v))
  lifecycle_metrics-Keeps rc took (Event.cluster_failing ∷ es) s good bad v =
      lifecycle_metrics-Keeps rc took es _ good bad (
        drop_zero good bad
          (perform-IsCounted r h kind (Activity.failed_over rc.name rc.namespace) s good bad v))
  lifecycle_metrics-Keeps rc took (Event.formation_failed ∷ es) s good bad v =
      lifecycle_metrics-Keeps rc took es s good bad v
  lifecycle_metrics-Keeps rc took (Event.cluster_formed ∷ es) s good bad v =
      lifecycle_metrics-Keeps rc took es s good bad v
  lifecycle_metrics-Keeps rc took (Event.cluster_recovered ∷ es) s good bad v =
      lifecycle_metrics-Keeps rc took es s good bad v

  status_metrics-Keeps :
      (rc : RedisCluster) (st : RedisClusterStatus) → Keeps (status_metrics r rc st)
  unfolding status_metrics perform
  status_metrics-Keeps rc st s good bad v = drop_zero good bad (
      perform-IsCounted r h kind
        (Activity.shown rc.name rc.namespace st.cluster_state st.assigned_slots
          (int32 (pos (length st.nodes))) st.ready_masters st.ready_replicas)
        s good bad v)

  delete_cluster_metrics-Keeps :
      (name namespace : Str) → Keeps (delete_cluster_metrics r name namespace)
  unfolding perform
  delete_cluster_metrics-Keeps name namespace s good bad v =
      drop_zero good bad
        (perform-IsCounted r h kind (Activity.forgotten name namespace) s good bad v)

  -- A run that keeps what is counted, whatever it returns.
  abbrev KeptRun : Type 0 → Type 0
  KeptRun A =
      (m : Metered S A) × ((s : S) (l : Log) (good bad : ℕ)
        → IsCounted r kind s good bad
        → IsCounted r kind (state (m s l)) good bad)

  and_after-kept :
      {A B : Type 0} (x : Result A × Log × S) (f : A → KeptRun B) (good bad : ℕ)
      → IsCounted r kind (state x) good bad
      → IsCounted r kind (state (and_after x (λ a. (f a).0))) good bad
  and_after-kept (Result.ok a, l, s) f good bad v = (f a).1 s l good bad v
  and_after-kept (Result.err e, l, s) f good bad v = v
  and_after-kept (Result.halt x, l, s) f good bad v = v

  abbrev quiet : {A : Type 0} → M A → KeptRun A
  quiet m = (quietly m, λ s l good bad v. v)

  abbrev bind : {A B : Type 0} → KeptRun A → (A → KeptRun B) → KeptRun B
  bind x f = (
    x.0 >>= (λ a. (f a).0),
    λ s l good bad v. and_after-kept (x.0 s l) f good bad (x.1 s l good bad v),
  )

  abbrev note : {B : Type 0} (f : Log → S → S) → ((l : Log) → Keeps (f l)) → KeptRun B → KeptRun B
  note f k x = (
    (λ s l. recording (f l) s l) >> x.0,
    λ s l good bad v. x.1 (f l s) l good bad (k l s good bad v),
  )

  choose-kept :
      {A : Type 0} (b : Bool) (x y : KeptRun A) (s : S) (l : Log) (good bad : ℕ)
      → IsCounted r kind s good bad
      → IsCounted r kind (state ((if b then x.0 else y.0) s l)) good bad
  choose-kept true x y s l good bad v = x.1 s l good bad v
  choose-kept false x y s l good bad v = y.1 s l good bad v

  abbrev choose : {A : Type 0} → Bool → KeptRun A → KeptRun A → KeptRun A
  choose b x y = (if b then x.0 else y.0, choose-kept b x y)

  module _ (k : Kube) (rt : Runtime) (c : RedisClient) (sha256_hex : Str → Str) (fuel : ℕ)
      (since took : Log → ℕ) where
    manage_kept : Meta → RedisCluster → Str → KeptRun Requeue
    manage_kept m rc hash = bind (quiet (reconcile_cluster_lifecycle rt c k fuel rc)) (λ o.
        note (λ l. lifecycle_metrics r rc (took l) o.events)
          (λ l. lifecycle_metrics-Keeps rc (took l) o.events)
          (bind (quiet (try_cluster_rolling_failover rt c k m (with_phase rc o.phase) hash))
            (λ phase. bind (quiet (try_cluster_hot_reload rt c rc)) (λ _.
              bind (quiet (update_cluster_status c k (with_phase rc phase))) (λ st.
                note (λ l. status_metrics r rc st) (λ l. status_metrics-Keeps rc st)
                  (bind (quiet (update_status k st.phase)) (λ _. quiet (pure (requeue_of o)))))))))

    live_kept : Meta → RedisCluster → KeptRun Requeue
    unfolding manage_kept
    live_kept m rc = bind (quiet (starting k rc.phase pure)) (λ phase.
        bind (quiet (apply_cluster k rt c sha256_hex fuel (with_phase rc phase)))
          (λ hash. manage_kept m (with_phase rc phase) hash))

    delete_kept : Meta → RedisCluster → KeptRun Requeue
    delete_kept m rc =
        choose m.finalizer
          (bind
            (quiet
              (unless_kept k rc.spec.storage (delete_listed k ((label_cluster, rc.name) ∷ []))))
            (λ _.
              note (λ l. delete_cluster_metrics r rc.name rc.namespace)
                (λ l. delete_cluster_metrics-Keeps rc.name rc.namespace)
                (quiet (finish_deletion k))))
          (quiet (pure Requeue.done))

    object-kept :
        (x : Error ⊎ (Meta × RedisCluster)) (s : S) (l : Log) (good bad : ℕ)
        → IsCounted r kind s good bad
        → IsCounted r kind
            (state (
              metered_object r k rt c sha256_hex fuel since
                (live_metered_cluster r k rt c sha256_hex fuel since took)
                x
                s
                l))
            good
            bad
    unfolding live_kept delete_kept delete_metered_cluster live_metered_cluster
        manage_metered_cluster
    object-kept (inl e) = λ s l good bad v. v
    object-kept (inr (m, rc)) =
        (choose m.deleting (delete_kept m rc) (
          choose m.finalizer (live_kept m rc)
            (bind (quiet (update_object k true)) (λ _. quiet (pure Requeue.again))))).1

    cluster_kept : (Log → Error ⊎ (Meta × RedisCluster)) → KeptRun Requeue
    cluster_kept fetch = bind (quiet (attempt (call Command.get_object fetch))) (λ x. (
      metered_object r k rt c sha256_hex fuel since
          (live_metered_cluster r k rt c sha256_hex fuel since took) x,
      object-kept x,
    ))

-- A reconciliation that returns raises the counter of its kind by one: that of the successes if it
-- returns no error, and those of the failures if it returns one. The result is not counted if the
-- reconciliation panics. What a run of a cluster records of the cluster does not disturb the counts.
pub reconcile_entry-IsRun :
    {S : Type 0} (r : Registry S) (h : IsRegistry r) (k : Kube) (rt : Runtime)
    (sha256_hex : Str → Str) (client : Option RedisClient) (c : RedisClient) (fuel : ℕ)
    (since took : Log → ℕ) (redis : Log → Error ⊎ (Meta × RedisInstance))
    (sentinel : Log → Error ⊎ (Meta × RedisSentinel))
    (cluster : Log → Error ⊎ (Meta × RedisCluster)) (s : S) (l : Log) (good bad : Kind → ℕ)
    → ((kind : Kind) → IsCounted r kind s (good kind) (bad kind))
    → IsRun r h Kind.redis
        (good Kind.redis)
        (bad Kind.redis)
        (reconcile_redis_entry r k rt client sha256_hex since redis s l)
      × IsRun r h Kind.redis_sentinel
          (good Kind.redis_sentinel)
          (bad Kind.redis_sentinel)
          (reconcile_sentinel_entry r k rt client sha256_hex since sentinel s l)
      × IsRun r h Kind.redis_cluster
          (good Kind.redis_cluster)
          (bad Kind.redis_cluster)
          (reconcile_cluster_entry r k rt c sha256_hex fuel since took cluster s l)
unfolding reconcile_redis_entry reconcile_sentinel_entry reconcile_cluster_entry cluster_kept
reconcile_entry-IsRun r h k rt sha256_hex client c fuel since took redis sentinel cluster s l good
      bad v =
    (
      recorded-IsRun r h Kind.redis since _ _
          (beside s (reconcile_redis k rt client sha256_hex redis l)) (v Kind.redis),
      recorded-IsRun r h Kind.redis_sentinel since _ _
          (beside s (reconcile_sentinel k rt client sha256_hex sentinel l)) (v Kind.redis_sentinel),
      recorded-IsRun r h Kind.redis_cluster since _ _
          ((cluster_kept r h Kind.redis_cluster k rt c sha256_hex fuel since took cluster).0 s l)
          ((cluster_kept r h Kind.redis_cluster k rt c sha256_hex fuel since took cluster).1 s l _ _
            (v Kind.redis_cluster)),
    )
