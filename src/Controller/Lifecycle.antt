-- ===== src/Controller/Lifecycle.antt =====
-- `reconcileClusterLifecycle`, `reconcileScaleOut` and `reconcileScaleIn` of
-- internal/controller/rediscluster_controller.go, for a reconciler that has a `ClusterManager`. Logs
-- are left out; the metrics are in Controller/Metered.
pub mod Settled
pub mod Lookups
pub mod ScaleIn
pub mod ScaleOut
use kubernetes_redis_operato.Prelude.{
  ◌||◌, ℕ, ◌+◌, ◌&&◌, Bool, false, true, List, [], ◌∷◌, ◌⊎◌, inl, inr, if◌then◌else◌,
}
use kubernetes_redis_operato.Prelude.Int.{ℤ, pos, ltb_ℤ, ◌-ℤ◌}
use kubernetes_redis_operato.Go.Text.{Str, codes, str_eq}
use kubernetes_redis_operato.Go.Word.{int32}
use kubernetes_redis_operato.Api.Types.{RedisClusterSpec, Phase}
use kubernetes_redis_operato.Redis.Effect.{Error, M, pure, attempt, ignoring, for_each, ◌>>=◌, ◌>>◌}
use kubernetes_redis_operato.Redis.Client.{RedisClient, Runtime}
use kubernetes_redis_operato.Redis.Members.{
  ClusterState, get_cluster_state, add_master, add_replica, remove_master, remove_replica,
}
use kubernetes_redis_operato.Redis.Form.{form_cluster}
use kubernetes_redis_operato.Redis.Rebalance.{rebalance_slots}
use kubernetes_redis_operato.Api.Objects.{RedisCluster}
use kubernetes_redis_operato.Controller.Names.{
  cluster_master_addr, cluster_replica_addr, all_master_addrs, all_replica_addrs, between,
  count_down, replica_index,
}
use kubernetes_redis_operato.Controller.Kube.{Kube, Requeue, update_status}
use kubernetes_redis_operato.Controller.Pods.{all_master_pods_ready, all_pods_ready}

pub data Event : Type 0 where
  formation_failed cluster_formed cluster_failing cluster_recovered : Event
  scale_out scale_in : ℤ → ℤ → Event

-- What a run leaves: the phase in memory, the events it recorded, and whether it set the Ready
-- condition to false (`setClusterFailedStatus`).
pub record Outcome : Type 0 where
  pub requeue : Requeue
  pub phase : Phase
  pub events : List Event
  pub ready_denied : Bool

abbrev pub outcome : Requeue → Phase → List Event → Outcome
outcome requeue phase events = record {
  requeue = requeue;
  phase = phase;
  events = events;
  ready_denied = false;
}

abbrev pub same : ℤ → ℤ → Bool
same a b = if ltb_ℤ a b then false else if ltb_ℤ b a then false else true

abbrev pub is_recovering : Phase → Bool
is_recovering Phase.recovering = true
is_recovering _ = false

-- The step that the code takes on an error, and the one it goes on with.
abbrev pub either : {A : Type 0} → Error ⊎ A → M Outcome → M Outcome → M Outcome
either (inl e) failed next = failed
either (inr a) failed next = next

abbrev pub scaling_later : ℕ → M Outcome
scaling_later n = pure (outcome (Requeue.after n) Phase.scaling [])

abbrev pub initializing_later : M Outcome
initializing_later = pure (outcome (Requeue.after 15) Phase.initializing [])

module _ (rt : Runtime) (c : RedisClient) (k : Kube) (fuel : ℕ) (rc : RedisCluster) where
  -- The replicas of the master with the index `i`.
  abbrev pub attach_replicas_of : ℤ → M (Unit {0})
  attach_replicas_of i =
      for_each
        (λ j. ignoring (
          add_replica c (cluster_replica_addr rc (replica_index rc.spec i j))
            (cluster_master_addr rc i)))
        (between (pos 0) rc.spec.replicas_per_master)

  unfoldable pub reconcile_scale_out : ℤ → M Outcome
  unfolding all_master_pods_ready cluster_master_addr between all_master_addrs add_master
      rebalance_slots for_each replica_index add_replica cluster_replica_addr
  reconcile_scale_out current = do
    ready ← all_master_pods_ready k rc
    if ready
        then (do
          let existing = cluster_master_addr rc (pos 0)
          met ← attempt (
              for_each (λ i. add_master c existing (cluster_master_addr rc i))
                (between current rc.spec.masters))
          either met (scaling_later 30) (do
            masters ← all_master_addrs rc
            moved ← attempt (rebalance_slots c rt fuel masters)
            either moved (scaling_later 30) (do
              for_each attach_replicas_of (between current rc.spec.masters)
              pure (
                  outcome Requeue.again Phase.ready
                    (Event.scale_out current rc.spec.masters ∷ [])))))
        else scaling_later 15

  -- One excess master, behind its replicas.
  abbrev pub remove_excess : Str → ℤ → M (Unit {0})
  remove_excess existing i = do
    for_each
        (λ j.
          ignoring
            (remove_replica c existing (cluster_replica_addr rc (replica_index rc.spec i j))))
        (between (pos 0) rc.spec.replicas_per_master)
    remove_master c existing (cluster_master_addr rc i)

  unfoldable pub reconcile_scale_in : ℤ → M Outcome
  unfolding cluster_master_addr between count_down all_master_addrs rebalance_slots for_each
      remove_replica remove_master cluster_replica_addr replica_index
  reconcile_scale_in current = do
    let existing = cluster_master_addr rc (pos 0)
    remaining ← all_master_addrs rc
    moved ← attempt (rebalance_slots c rt fuel remaining)
    either moved (scaling_later 30) (do
      removed ← attempt (for_each (remove_excess existing) (count_down rc.spec.masters current))
      either removed (scaling_later 30)
          (pure (outcome Requeue.again Phase.ready (Event.scale_in current rc.spec.masters ∷ []))))

  -- Redis does not answer.
  unfoldable pub unreachable : M Outcome
  unfolding all_master_pods_ready
  unreachable = do
    ready ← all_master_pods_ready k rc
    if ready then pure (outcome (Requeue.after 10) rc.phase []) else initializing_later

  -- No slot is assigned yet.
  unfoldable pub form : M Outcome
  unfolding all_pods_ready all_master_addrs all_replica_addrs form_cluster
  form = do
    ready ← all_pods_ready k rc
    if ready
        then (do
          masters ← all_master_addrs rc
          replicas ← all_replica_addrs rc
          formed ← attempt (form_cluster c rt fuel masters replicas rc.spec.replicas_per_master)
          either formed
              (ignoring (update_status k Phase.failed)
                >> pure (record {
                  requeue = Requeue.after 30;
                  phase = Phase.failed;
                  events = Event.formation_failed ∷ [];
                  ready_denied = true;
                }))
              (pure (outcome Requeue.again Phase.ready (Event.cluster_formed ∷ []))))
        else initializing_later

  -- The cluster is in the state "fail": the event is recorded when that is news.
  abbrev failing : Bool → Outcome
  failing true = outcome (Requeue.after 15) rc.phase []
  failing false = outcome (Requeue.after 15) Phase.recovering (Event.cluster_failing ∷ [])

  -- Scaling keeps the event of a recovery that was recorded before it.
  abbrev with_events : List Event → M Outcome → M Outcome
  with_events [] m = m
  with_events (e ∷ es) m = do o ← m; pure (record o { events = e ∷ o.events })

  unfoldable pub detect_scale : Phase → List Event → ClusterState → M Outcome
  unfolding reconcile_scale_out reconcile_scale_in int32
  detect_scale phase events s =
      let current = int32 s.size in
      if ltb_ℤ (pos 0) current && (ltb_ℤ current rc.spec.masters || ltb_ℤ rc.spec.masters current)
      then (if ltb_ℤ current rc.spec.masters
          then with_events events (reconcile_scale_out current)
          else with_events events (reconcile_scale_in current))
      else pure (outcome Requeue.done phase events)

  unfoldable pub reachable : ClusterState → M Outcome
  unfolding form detect_scale str_eq
  reachable s =
      if same s.slots_assigned (pos 0)
      then form
      else if str_eq s.state (codes "fail")
      then pure (failing (is_recovering rc.phase))
      else if is_recovering rc.phase && str_eq s.state (codes "ok")
      then detect_scale Phase.ready (Event.cluster_recovered ∷ []) s
      else detect_scale rc.phase [] s

  unfoldable pub reconcile_cluster_lifecycle : M Outcome
  unfolding get_cluster_state unreachable reachable cluster_master_addr
  reconcile_cluster_lifecycle = do
    probed ← attempt (get_cluster_state c (cluster_master_addr rc (pos 0)))
    elim probed [ inl e ↦ unreachable | inr s ↦ reachable s ]
