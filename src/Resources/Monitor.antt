-- ===== src/Resources/Monitor.antt =====
-- The builders of internal/resources/servicemonitor.go.
use kubernetes_redis_operato.Prelude.{[], ◌∷◌, ◌++◌}
use kubernetes_redis_operato.Go.Text.{Str, codes}
use kubernetes_redis_operato.Go.Map.{Map}
use kubernetes_redis_operato.Api.Objects.{RedisInstance, RedisSentinel, RedisCluster}
use kubernetes_redis_operato.Resources.Labels.{
  common_labels, pod_labels, component_redis, label_instance,
}
use kubernetes_redis_operato.Resources.Object.{ServiceMonitor}

abbrev pub build_service_monitor : Str → Str → Map Str → Map Str → ServiceMonitor
build_service_monitor name namespace labels selector = record {
  name = name;
  namespace = namespace;
  labels = labels;
  match_labels = selector;
  port = codes "metrics";
  path = codes "/metrics";
  interval = codes "30s";
}

unfoldable pub build_redis_service_monitor : RedisInstance → ServiceMonitor
build_redis_service_monitor r =
    build_service_monitor (r.name ++ codes "-monitor") r.namespace
      (common_labels r.name component_redis) (pod_labels r.name component_redis)

unfoldable pub build_sentinel_service_monitor : RedisSentinel → ServiceMonitor
build_sentinel_service_monitor rs =
    build_service_monitor (rs.name ++ codes "-monitor") rs.namespace
      (common_labels rs.name component_redis) (pod_labels rs.name component_redis)

unfoldable pub build_cluster_service_monitor : RedisCluster → ServiceMonitor
build_cluster_service_monitor rc =
    build_service_monitor (rc.name ++ codes "-monitor") rc.namespace
      (common_labels rc.name component_redis) ((label_instance, rc.name) ∷ [])
