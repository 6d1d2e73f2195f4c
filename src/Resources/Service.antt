-- ===== src/Resources/Service.antt =====
-- The builders of internal/resources/service.go.
use kubernetes_redis_operato.Prelude.{false, true, List, [], ◌∷◌, ◌++◌}
use kubernetes_redis_operato.Go.Text.{Str, codes}
use kubernetes_redis_operato.Go.Map.{Map}
use kubernetes_redis_operato.Api.Objects.{RedisInstance, RedisSentinel, RedisCluster}
use kubernetes_redis_operato.Resources.Labels.{
  common_labels, pod_labels, component_redis, component_master, component_replica,
  component_sentinel, label_instance, role_label_key, role_master, role_replica, redis_port,
  sentinel_port, redis_cluster_bus, headless_service_name,
}
use kubernetes_redis_operato.Resources.Object.{Service, ServicePort}

abbrev pub redis_ports : List ServicePort
redis_ports = record { name = codes "redis"; port = redis_port } ∷ []

-- A service with an address that Kubernetes chooses.
abbrev client_service : Str → Str → Map Str → Map Str → List ServicePort → Service
client_service name namespace labels selector ports = record {
  name = name;
  namespace = namespace;
  labels = labels;
  annotations = [];
  spec = record {
    cluster_ip = [];
    selector = selector;
    ports = ports;
    publish_not_ready_addresses = false;
  };
}

unfoldable pub build_redis_service : RedisInstance → Service
build_redis_service r =
    client_service r.name r.namespace (common_labels r.name component_redis)
      (pod_labels r.name component_redis) redis_ports

unfoldable pub build_sentinel_master_service : RedisSentinel → Service
build_sentinel_master_service rs =
    client_service (rs.name ++ codes "-master") rs.namespace
      (common_labels rs.name component_master)
      ((label_instance, rs.name) ∷ (role_label_key, role_master) ∷ []) redis_ports

unfoldable pub build_sentinel_replica_service : RedisSentinel → Service
build_sentinel_replica_service rs =
    client_service (rs.name ++ codes "-replica") rs.namespace
      (common_labels rs.name component_replica)
      ((label_instance, rs.name) ∷ (role_label_key, role_replica) ∷ []) redis_ports

unfoldable pub build_sentinel_service : RedisSentinel → Service
build_sentinel_service rs =
    client_service (rs.name ++ codes "-sentinel") rs.namespace
      (common_labels rs.name component_sentinel) (pod_labels rs.name component_sentinel)
      (record { name = codes "sentinel"; port = sentinel_port } ∷ [])

unfoldable pub build_headless_service : Str → Str → Str → Service
build_headless_service name namespace component = record {
  name = headless_service_name name component;
  namespace = namespace;
  labels = common_labels name component;
  annotations = (codes "service.alpha.kubernetes.io/tolerate-unready-endpoints", codes "true") ∷ [];
  spec = record {
    cluster_ip = codes "None";
    selector = pod_labels name component;
    ports =
        record { name = codes "redis"; port = redis_port }
        ∷ record { name = codes "cluster-bus"; port = redis_cluster_bus }
        ∷ [];
    publish_not_ready_addresses = true;
  };
}

unfoldable pub build_cluster_client_service : RedisCluster → Service
build_cluster_client_service rc =
    client_service rc.name rc.namespace (common_labels rc.name component_redis)
      ((label_instance, rc.name) ∷ []) redis_ports
