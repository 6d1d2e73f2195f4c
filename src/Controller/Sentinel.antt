-- ===== src/Controller/Sentinel.antt =====
-- internal/controller/redissentinel_controller.go, for a reconciler with or without
-- a client; main.go gives it none. Logs and events are left out;
-- the metrics are in Controller/Metered, the conditions in Controller/Conditions.
pub mod Steps
pub mod Roles
use kubernetes_redis_operato.Prelude.{
  none, some, Option, Bool, true, false, ◌&&◌, List, [], ◌∷◌, ◌++◌, ◌⊎◌, inl, inr, if◌then◌else◌,
}
use kubernetes_redis_operato.Prelude.Int.{ℤ, ltb_ℤ}
use kubernetes_redis_operato.Go.Text.{Str, codes, str_eq}
use kubernetes_redis_operato.Go.Number.{itoa}
use kubernetes_redis_operato.Api.Types.{Phase}
use kubernetes_redis_operato.Api.Objects.{Meta, RedisSentinel}
use kubernetes_redis_operato.Redis.Effect.{
  Error, Log, M, pure, attempt, ignoring, for_each, ◌>>=◌, ◌>>◌,
}
use kubernetes_redis_operato.Redis.Client.{RedisClient, Runtime}
use kubernetes_redis_operato.Redis.Calls
use kubernetes_redis_operato.Resources.Labels.{
  component_redis, component_sentinel, pod_labels, headless_service_name, sentinel_port,
  role_label_key, role_master, role_replica,
}
use kubernetes_redis_operato.Resources.Object.{Resource}
use kubernetes_redis_operato.Resources.Config.{
  Visit, value_of, build_sentinel_redis_config_map, build_sentinel_config_map,
}
use kubernetes_redis_operato.Resources.Service.{
  build_headless_service, build_sentinel_master_service, build_sentinel_replica_service,
  build_sentinel_service,
}
use kubernetes_redis_operato.Resources.Budget.{build_sentinel_redis_pdb, build_sentinel_pdb}
use kubernetes_redis_operato.Resources.Monitor.{build_sentinel_service_monitor}
use kubernetes_redis_operato.Resources.Workload.{
  build_sentinel_redis_stateful_set, build_sentinel_deployment,
}
use kubernetes_redis_operato.Controller.Kube.{
  Kube, Pod, Requeue, apply, list_pods, patch_role, update_status,
}
use kubernetes_redis_operato.Controller.Pods.{count_ready_pods}
use kubernetes_redis_operato.Controller.Standalone.{phase_of_readiness}
use kubernetes_redis_operato.Controller.Reconcile.{
  visiting, reconcile_object, starting, or_failed, apply_config_map, apply_all, when_exporting,
  delete_listed, unless_kept, finish_deletion,
}

abbrev pub sentinel_master_name : Str
sentinel_master_name = codes "mymaster"

-- `<name>-sentinel.<namespace>.svc.cluster.local:26379`
unfoldable pub sentinel_addr : RedisSentinel → Str
unfolding itoa
sentinel_addr rs =
    rs.name
    ++ codes "-sentinel."
    ++ rs.namespace
    ++ codes ".svc.cluster.local:"
    ++ itoa sentinel_port

-- The host of the first master.
abbrev pub master_fqdn : RedisSentinel → Str
master_fqdn rs =
    rs.name
    ++ codes "-0."
    ++ headless_service_name rs.name component_redis
    ++ b'.' ∷ rs.namespace
    ++ codes ".svc.cluster.local"

-- What `updateSentinelStatus` writes; `ready` is the condition Ready.
pub record SentinelStatus : Type 0 where
  pub phase : Phase
  pub ready_replicas : ℤ
  pub ready_sentinels : ℤ
  pub master_node : Str
  pub ready : Bool

unfoldable pub all_sentinels_ready : RedisSentinel → ℤ → ℤ → Bool
all_sentinels_ready rs replicas sentinels =
    (if ltb_ℤ replicas rs.spec.replicas then false else true)
    && (if ltb_ℤ sentinels rs.spec.sentinel_replicas then false else true)

-- The pod with an address, or a default.
unfoldable pub pod_with_ip : Str → Str → List Pod → Str
unfolding str_eq
pod_with_ip default host [] = default
pod_with_ip default host (p ∷ pods) =
    if str_eq p.pod_ip host then p.name else pod_with_ip default host pods

abbrev pub role_for : Str → Str → Str
role_for master pod = if str_eq pod master then role_master else role_replica

module _ (k : Kube) where
  module _ (client : Option RedisClient) where
    -- The master among the pods, if they can be listed.
    abbrev pub resolved : Str → Str → Error ⊎ (List Pod) → Str
    resolved default host (inl e) = default
    resolved default host (inr pods) = pod_with_ip default host pods

    abbrev pub resolve_master : Str → Str → M Str
    resolve_master default [] = pure default
    resolve_master default (h ∷ ost) = do
      r ← attempt (list_pods k component_redis)
      pure (resolved default (h ∷ ost) r)

    abbrev pub answered_master : Str → Error ⊎ (Str × ℤ) → M Str
    answered_master default (inl e) = pure default
    answered_master default (inr (host, port)) = resolve_master default host

    abbrev pub ask_sentinels : Option RedisClient → RedisSentinel → M Str
    ask_sentinels none rs = pure (rs.name ++ codes "-0")
    ask_sentinels (some c) rs = do
      r ← attempt (Calls.sentinel_get_master_addr c (sentinel_addr rs) sentinel_master_name)
      answered_master (rs.name ++ codes "-0") r

    -- The pod that the sentinels say is the master; the first pod if they say nothing, or if there is
    -- no client to ask them.
    unfoldable pub master_pod_name : RedisSentinel → M Str
    unfolding sentinel_addr pod_with_ip
    master_pod_name rs = ask_sentinels client rs

    -- A label that is right already is not patched.
    abbrev pub patch_pod : Str → Pod → M (Unit {0})
    patch_pod master p =
        if str_eq (value_of role_label_key p.labels) (role_for master p.name)
        then pure tt
        else ignoring (patch_role k p.name (role_for master p.name))

    abbrev pub patch_pods : RedisSentinel → Str → Error ⊎ (List Pod) → M Str
    patch_pods rs master (inl e) = pure rs.master_node
    patch_pods rs master (inr pods) = for_each (patch_pod master) pods >> pure master

    -- `reconcileRoleLabels`; the result is the master in the status afterwards.
    unfoldable pub reconcile_role_labels : RedisSentinel → M Str
    unfolding master_pod_name for_each str_eq
    reconcile_role_labels rs = do
      master ← master_pod_name rs
      r ← attempt (list_pods k component_redis)
      patch_pods rs master r

    abbrev pub reset_monitors : Option RedisClient → RedisSentinel → M (Unit {0})
    reset_monitors none rs = pure tt
    reset_monitors (some c) rs = ignoring (Calls.sentinel_reset c (sentinel_addr rs) (codes "*"))

    unfoldable pub handle_sentinel_deletion : Meta → RedisSentinel → M Requeue
    unfolding sentinel_addr delete_listed
    handle_sentinel_deletion m rs =
        if m.finalizer
        then (do
          reset_monitors client rs
          unless_kept k rs.spec.storage (delete_listed k (pod_labels rs.name component_redis))
          finish_deletion k)
        else pure Requeue.done

  abbrev pub sentinel_status : RedisSentinel → Phase → Str → ℤ → ℤ → SentinelStatus
  sentinel_status rs phase master replicas sentinels = record {
    phase = phase_of_readiness (all_sentinels_ready rs replicas sentinels) phase;
    ready_replicas = replicas;
    ready_sentinels = sentinels;
    master_node = master;
    ready = all_sentinels_ready rs replicas sentinels;
  }

  unfoldable pub update_sentinel_status : RedisSentinel → Phase → Str → M SentinelStatus
  unfolding count_ready_pods all_sentinels_ready
  update_sentinel_status rs phase master = do
    redis_pods ← list_pods k component_redis
    sentinel_pods ← list_pods k component_sentinel
    let s =
        sentinel_status rs phase master (count_ready_pods redis_pods)
          (count_ready_pods sentinel_pods)
    update_status k s.phase
    pure s

  module _ (rt : Runtime) (client : Option RedisClient) (sha256_hex : Str → Str) where
    -- The services and the disruption budgets, in the order in which they are applied.
    unfoldable pub sentinel_objects : RedisSentinel → List Resource
    unfolding build_headless_service build_sentinel_master_service build_sentinel_replica_service
        build_sentinel_service build_sentinel_redis_pdb build_sentinel_pdb
    sentinel_objects rs =
        Resource.service (build_headless_service rs.name rs.namespace component_redis)
        ∷ Resource.service (build_sentinel_master_service rs)
        ∷ Resource.service (build_sentinel_replica_service rs)
        ∷ Resource.service (build_sentinel_service rs)
        ∷ Resource.budget (build_sentinel_redis_pdb rs)
        ∷ Resource.budget (build_sentinel_pdb rs)
        ∷ []

    -- Each of the following creates or updates one object; what it makes of an object that exists is
    -- in Controller/Apply.antt.
    abbrev pub reconcile_redis_config_map : Visit → RedisSentinel → M Str
    reconcile_redis_config_map visit rs =
        apply_config_map k sha256_hex visit (build_sentinel_redis_config_map visit rs)

    abbrev pub reconcile_sentinel_config_map : Visit → RedisSentinel → Str → M (Unit {0})
    reconcile_sentinel_config_map visit rs fqdn =
        apply k (Resource.config_map (build_sentinel_config_map visit rs fqdn))

    abbrev pub reconcile_redis_stateful_set : RedisSentinel → Str → M (Unit {0})
    reconcile_redis_stateful_set rs hash =
        apply k (Resource.stateful_set (build_sentinel_redis_stateful_set rs) hash)

    abbrev pub reconcile_sentinel_deployment : RedisSentinel → M (Unit {0})
    reconcile_sentinel_deployment rs =
        apply k (Resource.deployment (build_sentinel_deployment rs) [])

    abbrev pub reconcile_sentinel_service_monitor : RedisSentinel → M (Unit {0})
    reconcile_sentinel_service_monitor rs =
        apply k (Resource.service_monitor (build_sentinel_service_monitor rs))

    -- The rest of a reconciliation, from the phase in memory.
    unfoldable pub reconcile_started_sentinel : RedisSentinel → Phase → M Requeue
    unfolding build_sentinel_redis_config_map build_sentinel_config_map sentinel_objects apply_all
        build_sentinel_service_monitor reconcile_role_labels update_sentinel_status
    reconcile_started_sentinel rs phase = do
      visit ← visiting rt
      hash ← or_failed k (reconcile_redis_config_map visit rs)
      visit' ← visiting rt
      reconcile_sentinel_config_map visit' rs (master_fqdn rs)
      reconcile_redis_stateful_set rs hash
      reconcile_sentinel_deployment rs
      apply_all k (sentinel_objects rs)
      when_exporting k rs.spec.enable_exporter (reconcile_sentinel_service_monitor rs)
      master ← reconcile_role_labels client rs
      s ← update_sentinel_status rs phase master
      pure (Requeue.after 30)

    unfoldable pub reconcile_live_sentinel : Meta → RedisSentinel → M Requeue
    unfolding reconcile_started_sentinel
    reconcile_live_sentinel m rs = starting k rs.phase (reconcile_started_sentinel rs)

    -- `doReconcile`
    unfoldable pub reconcile_sentinel : (Log → Error ⊎ (Meta × RedisSentinel)) → M Requeue
    unfolding handle_sentinel_deletion reconcile_live_sentinel
    reconcile_sentinel fetch =
        reconcile_object k fetch (handle_sentinel_deletion client) reconcile_live_sentinel
