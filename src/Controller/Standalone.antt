-- ===== src/Controller/Standalone.antt =====
-- internal/controller/redis_controller.go, for a reconciler with or without a
-- client; main.go gives it none. Logs and events are left out; the metrics are in Controller/Metered,
-- the conditions in Controller/Conditions.
pub mod Steps
use kubernetes_redis_operato.Prelude.{
  Option, Bool, true, false, ◌++◌, none, some, ◌⊎◌, inl, inr, if◌then◌else◌,
}
use kubernetes_redis_operato.Prelude.Int.{ℤ, pos, ltb_ℤ}
use kubernetes_redis_operato.Go.Text.{Str, codes}
use kubernetes_redis_operato.Api.Types.{Phase, StorageSpec}
use kubernetes_redis_operato.Api.Objects.{Meta, RedisInstance}
use kubernetes_redis_operato.Redis.Effect.{Error, Log, M, pure, attempt, ◌>>=◌, ◌>>◌}
use kubernetes_redis_operato.Redis.Client.{RedisClient, Runtime}
use kubernetes_redis_operato.Resources.Labels.{component_redis}
use kubernetes_redis_operato.Resources.Object.{Resource}
use kubernetes_redis_operato.Resources.Config.{Visit, build_redis_config_map}
use kubernetes_redis_operato.Resources.Service.{build_headless_service, build_redis_service}
use kubernetes_redis_operato.Resources.Monitor.{build_redis_service_monitor}
use kubernetes_redis_operato.Resources.Workload.{build_redis_stateful_set, build_redis_deployment}
use kubernetes_redis_operato.Controller.Kube.{
  Kube, Requeue, apply, list_pods, get_claim, update_status,
}
use kubernetes_redis_operato.Controller.Pods.{count_ready_pods}
use kubernetes_redis_operato.Controller.Reload.{try_hot_reload}
use kubernetes_redis_operato.Controller.Reconcile.{
  visiting, reconcile_object, starting, or_failed, apply_config_map, when_exporting, delete_one,
  unless_kept, finish_deletion,
}

-- What `updateStatus` writes; `ready` is the condition Ready.
pub record RedisStatus : Type 0 where
  pub phase : Phase
  pub ready_replicas : ℤ
  pub ready : Bool

-- Ready whenever it is; a failure is kept until then.
abbrev pub phase_of_readiness : Bool → Phase → Phase
phase_of_readiness true phase = Phase.ready
phase_of_readiness false Phase.failed = Phase.failed
phase_of_readiness false _ = Phase.initializing

abbrev pub redis_status : Phase → ℤ → RedisStatus
redis_status phase n = record {
  phase = phase_of_readiness (ltb_ℤ (pos 0) n) phase;
  ready_replicas = n;
  ready = ltb_ℤ (pos 0) n;
}

module _ (k : Kube) where
  unfoldable pub update_redis_status : Phase → M RedisStatus
  unfolding count_ready_pods
  update_redis_status phase = do
    pods ← list_pods k component_redis
    let s = redis_status phase (count_ready_pods pods)
    update_status k s.phase
    pure s

  -- The claim of the only pod of the stateful set; if it cannot be read, it is not deleted.
  abbrev pub delete_own_claim : Str → M (Unit {0})
  delete_own_claim claim = do
    r ← attempt (get_claim k claim)
    elim r [ inl _ ↦ pure tt | inr _ ↦ delete_one k claim ]

  abbrev pub claim_name : RedisInstance → Str
  claim_name r = codes "data-" ++ r.name ++ codes "-0"

  unfoldable pub handle_redis_deletion : Meta → RedisInstance → M Requeue
  handle_redis_deletion m r =
      if m.finalizer
      then unless_kept k r.spec.storage (delete_own_claim (claim_name r)) >> finish_deletion k
      else pure Requeue.done

  -- Each of the following creates or updates one object; what it makes of an object that exists is in
  -- Controller/Apply.antt.
  abbrev pub reconcile_config_map : (Str → Str) → Visit → RedisInstance → M Str
  reconcile_config_map sha256_hex visit r =
      apply_config_map k sha256_hex visit (build_redis_config_map visit r)

  abbrev pub reconcile_headless_service : RedisInstance → M (Unit {0})
  reconcile_headless_service r =
      apply k (Resource.service (build_headless_service r.name r.namespace component_redis))

  abbrev pub reconcile_stateful_set : RedisInstance → Str → M (Unit {0})
  reconcile_stateful_set r hash = apply k (Resource.stateful_set (build_redis_stateful_set r) hash)

  abbrev pub reconcile_deployment : RedisInstance → Str → M (Unit {0})
  reconcile_deployment r hash = apply k (Resource.deployment (build_redis_deployment r) hash)

  abbrev pub reconcile_service : RedisInstance → M (Unit {0})
  reconcile_service r = apply k (Resource.service (build_redis_service r))

  abbrev pub reconcile_service_monitor : RedisInstance → M (Unit {0})
  reconcile_service_monitor r = apply k (Resource.service_monitor (build_redis_service_monitor r))

  -- A stateful set behind a headless service if there is storage, a deployment if not.
  abbrev pub workload_for : Option StorageSpec → RedisInstance → Str → M (Unit {0})
  workload_for none r hash = reconcile_deployment r hash
  workload_for (some s) r hash = do reconcile_headless_service r; reconcile_stateful_set r hash

  unfoldable pub apply_redis_workload : RedisInstance → Str → M (Unit {0})
  unfolding build_headless_service build_redis_deployment build_redis_stateful_set
  apply_redis_workload r hash = workload_for r.spec.storage r hash

  module _ (rt : Runtime) (client : Option RedisClient) (sha256_hex : Str → Str) where
    -- The rest of a reconciliation, from the phase in memory.
    unfoldable pub reconcile_started_redis : RedisInstance → Phase → M Requeue
    unfolding apply_redis_workload build_redis_config_map build_redis_service
        build_redis_service_monitor try_hot_reload update_redis_status
    reconcile_started_redis r phase = do
      visit ← visiting rt
      hash ← or_failed k (reconcile_config_map sha256_hex visit r)
      apply_redis_workload r hash
      reconcile_service r
      when_exporting k r.spec.enable_exporter (reconcile_service_monitor r)
      try_hot_reload rt client k r
      s ← update_redis_status phase
      pure (Requeue.after 30)

    unfoldable pub reconcile_live_redis : Meta → RedisInstance → M Requeue
    unfolding reconcile_started_redis
    reconcile_live_redis m r = starting k r.phase (reconcile_started_redis r)

    -- `doReconcile`
    unfoldable pub reconcile_redis : (Log → Error ⊎ (Meta × RedisInstance)) → M Requeue
    unfolding handle_redis_deletion reconcile_live_redis
    reconcile_redis fetch = reconcile_object k fetch handle_redis_deletion reconcile_live_redis
