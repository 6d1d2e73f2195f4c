-- ===== src/Controller/Sentinel/Steps.antt =====
-- The steps of a reconciliation of servers under sentinels, and what they keep.
use kubernetes_redis_operato.Prelude.{
  some, none, Option, false, ◌≡◌, List, [], ◌∷◌, ◌++◌, ◌⊎◌, inl, inr, Bool-cases,
}
use kubernetes_redis_operato.Prelude.Int.{ℤ}
use kubernetes_redis_operato.Go.Text.{Str, codes, str_eq}
use kubernetes_redis_operato.Api.Types.{Phase}
use kubernetes_redis_operato.Api.Objects.{Meta, RedisSentinel}
use kubernetes_redis_operato.Redis.Effect.{Error, Command, Log, for_each}
use kubernetes_redis_operato.Redis.Client.{RedisClient, Runtime}
use kubernetes_redis_operato.Resources.Config.{
  value_of, build_sentinel_redis_config_map, build_sentinel_config_map,
}
use kubernetes_redis_operato.Resources.Object.{Resource}
use kubernetes_redis_operato.Resources.Labels.{component_redis, component_sentinel, role_label_key}
use kubernetes_redis_operato.Resources.Monitor.{build_sentinel_service_monitor}
use kubernetes_redis_operato.Resources.Workload.{
  build_sentinel_redis_stateful_set, build_sentinel_deployment,
}
use kubernetes_redis_operato.Controller.Kube.{Kube, Pod, Requeue}
use kubernetes_redis_operato.Controller.Pods.{count_ready_pods}
use kubernetes_redis_operato.Controller.Sentinel.{
  Option, sentinel_addr, sentinel_master_name, master_fqdn, role_for, resolve_master, resolved,
  answered_master, ask_sentinels, master_pod_name, patch_pod, patch_pods, reconcile_role_labels,
  sentinel_status, update_sentinel_status, sentinel_objects, reconcile_started_sentinel,
  reconcile_live_sentinel, reconcile_sentinel,
}
use kubernetes_redis_operato.Controller.Reconcile.{apply_all, apply_monitor}
use kubernetes_redis_operato.Controller.Reconcile.Live.{
  Yields, Keeps, Any, IsLater, started, step, run_value, run_visiting, run_result, run_call,
  run_attempt, run_ignoring, run_apply, run_config_map, run_or_failed, Keeps-for_each,
  Keeps-apply_all, Keeps-apply_monitor, reconcile_object-Later,
}
use kubernetes_redis_operato.Controller.Reconcile.Phases.{
  Keeps-starting, Writes, phase_of_readiness-IsMove,
}

module _ (k : Kube) (rt : Runtime) (client : Option RedisClient) (p : Phase) where
  Keeps-resolve_master :
      (default host : Str) → Keeps (Writes p) Any (resolve_master k client default host)
  Keeps-resolve_master default [] = (run_value {P = Writes p} default).1
  Keeps-resolve_master default (h ∷ ost) =
      (step {P = Writes p}
        (run_attempt (run_call (Command.list_pods component_redis) k.list_pods tt))
        (λ r. run_value (resolved k client default (h ∷ ost) r))).1

  Keeps-answered_master :
      (default : Str) (r : Error ⊎ (Str × ℤ))
      → Keeps (Writes p) Any (answered_master k client default r)
  Keeps-answered_master default (inl e) = (run_value {P = Writes p} default).1
  Keeps-answered_master default (inr (host, port)) = Keeps-resolve_master default host

  Keeps-ask_sentinels :
      (o : Option RedisClient) (rs : RedisSentinel)
      → Keeps (Writes p) Any (ask_sentinels k client o rs)
  Keeps-ask_sentinels none rs = (run_value {P = Writes p} (rs.name ++ codes "-0")).1
  Keeps-ask_sentinels (some c) rs =
      (step {P = Writes p}
        (run_attempt (
          run_call (Command.sentinel_get_master_addr (sentinel_addr rs) sentinel_master_name)
            c.sentinel_get_master_addr tt))
        (λ r. (answered_master k client (rs.name ++ codes "-0") r, Keeps-answered_master _ r))).1

  Keeps-master_pod_name : (rs : RedisSentinel) → Keeps (Writes p) Any (master_pod_name k client rs)
  unfolding master_pod_name
  Keeps-master_pod_name rs = Keeps-ask_sentinels client rs

  Keeps-patch_pod :
      (master : Str) (pod : Pod) → Keeps (Writes p) Any (patch_pod k client master pod)
  Keeps-patch_pod master pod =
      elim (Bool-cases (str_eq (value_of role_label_key pod.labels) (role_for master pod.name))) [
        | inl e ↦ rw e (run_value {P = Writes p} tt).1
        | inr e ↦
            rw e
              (run_ignoring (
                run_call {P = Writes p} (Command.patch_role pod.name (role_for master pod.name))
                  k.patch tt)).1
      ]

  Keeps-patch_pods :
      (rs : RedisSentinel) (master : Str) (r : Error ⊎ (List Pod))
      → Keeps (Writes p) Any (patch_pods k client rs master r)
  Keeps-patch_pods rs master (inl e) = (run_value {P = Writes p} rs.master_node).1
  Keeps-patch_pods rs master (inr pods) =
      (step {P = Writes p}
        (for_each (patch_pod k client master) pods, Keeps-for_each _ pods (Keeps-patch_pod master))
        (λ _. run_value master)).1

  Keeps-reconcile_role_labels :
      (rs : RedisSentinel) → Keeps (Writes p) Any (reconcile_role_labels k client rs)
  unfolding reconcile_role_labels
  Keeps-reconcile_role_labels rs =
      (step {P = Writes p} (master_pod_name k client rs, Keeps-master_pod_name rs)
        (λ master.
          step (run_attempt (run_call (Command.list_pods component_redis) k.list_pods tt))
            (λ r. (patch_pods k client rs master r, Keeps-patch_pods rs master r)))).1

  -- The status that is written and returned.
  Keeps-update_sentinel_status :
      (rs : RedisSentinel) (master : Str)
      → Keeps (Writes p) Any (update_sentinel_status k rs (started p) master)
  unfolding update_sentinel_status
  Keeps-update_sentinel_status rs master =
      (step {P = Writes p} (run_call (Command.list_pods component_redis) k.list_pods tt)
        (λ redis_pods.
          step (run_call (Command.list_pods component_sentinel) k.list_pods tt) (λ sentinel_pods.
            let s =
              sentinel_status k rs (started p) master (count_ready_pods redis_pods)
                (count_ready_pods sentinel_pods) in
            step
              (run_call (Command.update_status s.phase) k.update_status
                (phase_of_readiness-IsMove s.ready p))
              (λ _. run_value s)))).1

  module _ (sha256_hex : Str → Str) where
    Keeps-reconcile_started :
        (rs : RedisSentinel)
        → Keeps
            (Writes p)
            IsLater
            (reconcile_started_sentinel k rt client sha256_hex rs (started p))
    unfolding reconcile_started_sentinel
    Keeps-reconcile_started rs =
        let objects = sentinel_objects k rt client sha256_hex rs in
        let monitor = Resource.service_monitor (build_sentinel_service_monitor rs) in
        (step {P = Writes p} (run_visiting rt) (λ visit.
          step
            (run_or_failed k tt (
              run_config_map k (λ _. tt) sha256_hex visit
                (build_sentinel_redis_config_map visit rs)))
            (λ hash. step (run_visiting rt) (λ visit'.
              step
                (run_apply k (λ _. tt)
                  (Resource.config_map (build_sentinel_config_map visit' rs (master_fqdn rs))))
                (λ _.
                  step
                    (run_apply k (λ _. tt)
                      (Resource.stateful_set (build_sentinel_redis_stateful_set rs) hash))
                    (λ _.
                      step
                        (run_apply k (λ _. tt)
                          (Resource.deployment (build_sentinel_deployment rs) []))
                        (λ _.
                          step (apply_all k objects, Keeps-apply_all k (λ _. tt) objects)
                            (λ _.
                              step
                                (
                                  apply_monitor k rs.spec.enable_exporter monitor,
                                  Keeps-apply_monitor k (λ _. tt) rs.spec.enable_exporter monitor,
                                )
                                (λ _.
                                  step
                                    (
                                      reconcile_role_labels k client rs,
                                      Keeps-reconcile_role_labels rs,
                                    )
                                    (λ master.
                                      step
                                        (
                                          update_sentinel_status k rs (started p) master,
                                          Keeps-update_sentinel_status rs master,
                                        )
                                        (λ _. run_result IsLater (Requeue.after 30) tt))))))))))).1

module _ (k : Kube) (rt : Runtime) (client : Option RedisClient) (sha256_hex : Str → Str) where
  pub Keeps-reconcile_live_sentinel :
      (m : Meta) (rs : RedisSentinel)
      → Keeps (Writes rs.phase) IsLater (reconcile_live_sentinel k rt client sha256_hex m rs)
  unfolding reconcile_live_sentinel
  Keeps-reconcile_live_sentinel m rs =
      Keeps-starting k rs.phase (reconcile_started_sentinel k rt client sha256_hex rs)
        (Keeps-reconcile_started k rt client rs.phase sha256_hex rs)

  -- If the object is read and is not being deleted, the reconciliation of servers under sentinels ends
  -- without a halt, whatever the API server, the servers and the sentinels answer: with an error, with
  -- a requeue at once, or with one after some time.
  pub reconcile_sentinel-Later :
      (fetch : Log → Error ⊎ (Meta × RedisSentinel)) (l : Log) (m : Meta) (rs : RedisSentinel)
      → fetch (Command.get_object ∷ l) ≡ inr (m, rs)
      → m.deleting ≡ false
      → Yields IsLater (reconcile_sentinel k rt client sha256_hex fetch l).0
  unfolding reconcile_sentinel
  reconcile_sentinel-Later fetch =
      reconcile_object-Later k fetch _ (reconcile_live_sentinel k rt client sha256_hex)
        (λ m o l. (Keeps-reconcile_live_sentinel m o l).1)
