-- ===== src/Controller/Standalone/Steps.antt =====
-- The steps of a reconciliation of a standalone server, and what they keep.
use kubernetes_redis_operato.Prelude.{
  false, ◌≡◌, ◌∷◌, Option, none, some, ◌⊎◌, inl, inr, Bool-cases,
}
use kubernetes_redis_operato.Go.Text.{Str}
use kubernetes_redis_operato.Go.Map.{Map}
use kubernetes_redis_operato.Api.Types.{Phase, StorageSpec}
use kubernetes_redis_operato.Api.Objects.{Meta, RedisInstance}
use kubernetes_redis_operato.Redis.Effect.{Error, Command, Log, M, pure}
use kubernetes_redis_operato.Redis.Client.{RedisClient, Runtime}
use kubernetes_redis_operato.Resources.Config.{keys, build_redis_config_map, value_of}
use kubernetes_redis_operato.Resources.Object.{Resource}
use kubernetes_redis_operato.Resources.Labels.{component_redis}
use kubernetes_redis_operato.Resources.Service.{build_headless_service, build_redis_service}
use kubernetes_redis_operato.Resources.Monitor.{build_redis_service_monitor}
use kubernetes_redis_operato.Resources.Workload.{build_redis_stateful_set, build_redis_deployment}
use kubernetes_redis_operato.Controller.Kube.{Kube, Requeue}
use kubernetes_redis_operato.Controller.Pods.{count_ready_pods}
use kubernetes_redis_operato.Controller.Reload.{
  is_hot, hot_reload, with_client, try_hot_reload, push_params, redis_addr, set_param, push_if_set,
  with_secret,
}
use kubernetes_redis_operato.Controller.Standalone.{
  pos, ltb_ℤ, redis_status, update_redis_status, workload_for, apply_redis_workload,
  reconcile_redis, reconcile_live_redis, reconcile_started_redis,
}
use kubernetes_redis_operato.Controller.Reconcile.{apply_monitor}
use kubernetes_redis_operato.Controller.Reconcile.Live.{
  Yields, Keeps, Any, IsLater, started, step, run_value, run_visiting, run_result, run_call,
  run_attempt, run_ignoring, run_apply, run_config_map, run_or_failed, Keeps-for_each,
  Keeps-apply_monitor, reconcile_object-Later,
}
use kubernetes_redis_operato.Controller.Reconcile.Phases.{
  Keeps-starting, Writes, phase_of_readiness-IsMove,
}

module _ (k : Kube) (rt : Runtime) (c : RedisClient) (p : Phase) where
  Keeps-set_param :
      (addr : Str) (config : Map Str) (key : Str)
      → Keeps (Writes p) Any (set_param rt c addr config key)
  Keeps-set_param addr config key = elim (Bool-cases (is_hot key)) [
    | inl e ↦
        rw e
          (run_ignoring (
            run_call {P = Writes p} (Command.config_set addr key (value_of key config)) c.config_set
              tt)).1
    | inr e ↦ rw e (run_value {P = Writes p} tt).1
  ]

  Keeps-push_params :
      (addr : Str) (config : Map Str) → Keeps (Writes p) Any (push_params rt c addr config)
  unfolding push_params
  Keeps-push_params addr config l =
      Keeps-for_each _ (rt.visit_keys l (keys config)) (Keeps-set_param addr config) l

  Keeps-unless_failed :
      (r : Error ⊎ (Unit {0})) (push : M (Unit {0}))
      → Keeps (Writes p) Any push
      → Keeps (Writes p) Any (elim r [ inl _ ↦ pure tt | inr _ ↦ push ])
  Keeps-unless_failed (inl e) push h = (run_value {P = Writes p} tt).1
  Keeps-unless_failed (inr u) push h = h

  Keeps-with_secret :
      (auth : Option Str) (push : M (Unit {0}))
      → Keeps (Writes p) Any push
      → Keeps (Writes p) Any (with_secret rt c k auth push)
  Keeps-with_secret none push h = h
  Keeps-with_secret (some secret) push h =
      (step {P = Writes p} (run_attempt (run_call (Command.get_secret secret) k.get_secret tt))
        (λ r. (elim r [ inl _ ↦ pure tt | inr _ ↦ push ], Keeps-unless_failed r push h))).1

  Keeps-push_if_set :
      (o : Option (Map Str)) (push : Map Str → M (Unit {0}))
      → ((config : Map Str) → Keeps (Writes p) Any (push config))
      → Keeps (Writes p) Any (push_if_set rt c o push)
  Keeps-push_if_set none push h = (run_value {P = Writes p} tt).1
  Keeps-push_if_set (some config) push h = h config

  Keeps-hot_reload : (r : RedisInstance) → Keeps (Writes p) Any (hot_reload rt c k r)
  unfolding hot_reload
  Keeps-hot_reload r =
      Keeps-push_if_set r.spec.redis_config _
        (λ config. Keeps-with_secret r.spec.auth _ (Keeps-push_params (redis_addr r) config))

module _ (k : Kube) (rt : Runtime) (client : Option RedisClient) (p : Phase) where
  Keeps-with_client :
      (o : Option RedisClient) (r : RedisInstance)
      → Keeps (Writes p) Any (with_client o (λ c. hot_reload rt c k r))
  Keeps-with_client none r = (run_value {P = Writes p} tt).1
  Keeps-with_client (some c) r = Keeps-hot_reload k rt c p r

  Keeps-try_hot_reload : (r : RedisInstance) → Keeps (Writes p) Any (try_hot_reload rt client k r)
  unfolding try_hot_reload
  Keeps-try_hot_reload r = Keeps-with_client client r

  Keeps-workload_for :
      (storage : Option StorageSpec) (r : RedisInstance) (hash : Str)
      → Keeps (Writes p) Any (workload_for k storage r hash)
  Keeps-workload_for none r hash =
      (run_apply {P = Writes p} k (λ _. tt) (Resource.deployment (build_redis_deployment r) hash)).1
  Keeps-workload_for (some s) r hash =
      (step {P = Writes p}
        (run_apply k (λ _. tt)
          (Resource.service (build_headless_service r.name r.namespace component_redis)))
        (λ _. run_apply k (λ _. tt) (Resource.stateful_set (build_redis_stateful_set r) hash))).1

  Keeps-workload :
      (r : RedisInstance) (hash : Str) → Keeps (Writes p) Any (apply_redis_workload k r hash)
  unfolding apply_redis_workload
  Keeps-workload r hash = Keeps-workload_for r.spec.storage r hash

  -- The status that is written and returned.
  Keeps-update_redis_status : Keeps (Writes p) Any (update_redis_status k (started p))
  unfolding update_redis_status
  Keeps-update_redis_status =
      (step {P = Writes p} (run_call (Command.list_pods component_redis) k.list_pods tt) (λ pods.
        let s = redis_status (started p) (count_ready_pods pods) in
        step
          (run_call (Command.update_status s.phase) k.update_status
            (phase_of_readiness-IsMove (ltb_ℤ (pos 0) (count_ready_pods pods)) p))
          (λ _. run_value s))).1

  module _ (sha256_hex : Str → Str) where
    Keeps-reconcile_started :
        (r : RedisInstance)
        → Keeps (Writes p) IsLater (reconcile_started_redis k rt client sha256_hex r (started p))
    unfolding reconcile_started_redis
    Keeps-reconcile_started r =
        (step {P = Writes p} (run_visiting rt) (λ visit.
          step
            (run_or_failed k tt
              (run_config_map k (λ _. tt) sha256_hex visit (build_redis_config_map visit r)))
            (λ hash.
              step (apply_redis_workload k r hash, Keeps-workload r hash)
                (λ _. step (run_apply k (λ _. tt) (Resource.service (build_redis_service r))) (λ _.
                  step
                    (
                      apply_monitor k r.spec.enable_exporter
                          (Resource.service_monitor (build_redis_service_monitor r)),
                      Keeps-apply_monitor k (λ _. tt) r.spec.enable_exporter
                          (Resource.service_monitor (build_redis_service_monitor r)),
                    )
                    (λ _.
                      step (try_hot_reload rt client k r, Keeps-try_hot_reload r)
                        (λ _.
                          step (update_redis_status k (started p), Keeps-update_redis_status)
                            (λ _. run_result IsLater (Requeue.after 30) tt)))))))).1

module _ (k : Kube) (rt : Runtime) (client : Option RedisClient) (sha256_hex : Str → Str) where
  pub Keeps-reconcile_live_redis :
      (m : Meta) (r : RedisInstance)
      → Keeps (Writes r.phase) IsLater (reconcile_live_redis k rt client sha256_hex m r)
  unfolding reconcile_live_redis
  Keeps-reconcile_live_redis m r =
      Keeps-starting k r.phase (reconcile_started_redis k rt client sha256_hex r)
        (Keeps-reconcile_started k rt client r.phase sha256_hex r)

  -- If the object is read and is not being deleted, the reconciliation of a standalone server ends
  -- without a halt, whatever the API server and the server answer: with an error, with a requeue at
  -- once, or with one after some time.
  pub reconcile_redis-Later :
      (fetch : Log → Error ⊎ (Meta × RedisInstance)) (l : Log) (m : Meta) (r : RedisInstance)
      → fetch (Command.get_object ∷ l) ≡ inr (m, r)
      → m.deleting ≡ false
      → Yields IsLater (reconcile_redis k rt client sha256_hex fetch l).0
  unfolding reconcile_redis
  reconcile_redis-Later fetch =
      reconcile_object-Later k fetch _ (reconcile_live_redis k rt client sha256_hex)
        (λ m o l. (Keeps-reconcile_live_redis m o l).1)
