-- ===== src/Resources/Workload.antt =====
-- The stateful sets of internal/resources/statefulset.go and the deployments of deployment.go. What a
-- workload builder returns is paired by the controllers with the hash of the configuration.
pub mod Mounts
use kubernetes_redis_operato.Prelude.{
  Bool, true, false, List, [], ◌∷◌, ◌++◌, Option, none, some, if◌then◌else◌,
}
use kubernetes_redis_operato.Prelude.Int.{ℤ, pos, ◌*ℤ◌}
use kubernetes_redis_operato.Go.Text.{Str, codes, str_eq}
use kubernetes_redis_operato.Go.Word.{int32}
use kubernetes_redis_operato.Api.Types.{StorageSpec}
use kubernetes_redis_operato.Api.Objects.{RedisInstance, RedisSentinel, RedisCluster}
use kubernetes_redis_operato.Resources.Labels.{
  common_labels, pod_labels, component_redis, component_sentinel, component_master,
  component_replica, headless_service_name, cluster_master_statefulset_name,
  cluster_replica_statefulset_name,
}
use kubernetes_redis_operato.Resources.Object.{
  EnvSource, VolumeSource, Container, PodSpec, ClaimTemplate, Workload,
}
use kubernetes_redis_operato.Resources.Config.{
  config_map_name_for_redis, config_map_name_for_sentinel, is_some,
}
use kubernetes_redis_operato.Resources.Container.{
  mount, build_pvc_templates, build_redis_pod_spec, build_cluster_pod_spec,
  build_sentinel_init_container, build_sentinel_container,
}

abbrev pub claims_of : Option StorageSpec → List ClaimTemplate
claims_of none = []
claims_of (some s) = build_pvc_templates s

abbrev workload : Str → Str → Str → Str → ℤ → Str → PodSpec → List ClaimTemplate → Workload
workload name namespace cr component replicas service pod claims = record {
  name = name;
  namespace = namespace;
  labels = common_labels cr component;
  replicas = replicas;
  service_name = service;
  match_labels = pod_labels cr component;
  pod = pod;
  claims = claims;
}

unfoldable pub build_redis_stateful_set : RedisInstance → Workload
unfolding build_redis_pod_spec
build_redis_stateful_set r =
    workload r.name r.namespace r.name component_redis (pos 1)
      (headless_service_name r.name component_redis)
      (build_redis_pod_spec r.spec.image r.spec.exporter_image r.spec.enable_exporter r.spec.auth
        r.spec.tls (config_map_name_for_redis r.name) true)
      (claims_of r.spec.storage)

-- The container of the server also mounts the data.
unfoldable pub mount_data : List Container → List Container
unfolding str_eq
mount_data [] = []
mount_data (c ∷ cs) =
    (if str_eq c.name (codes "redis")
      then record c { mounts = c.mounts ++ mount (codes "data") (codes "/data") false ∷ [] }
      else c)
    ∷ mount_data cs

-- Data lives in an empty directory.
abbrev pub with_empty_dir : PodSpec → PodSpec
with_empty_dir p = record p {
  volumes = p.volumes ++ record { name = codes "data"; source = VolumeSource.empty_dir } ∷ [];
  containers = mount_data p.containers;
}

unfoldable pub build_redis_deployment : RedisInstance → Workload
unfolding build_redis_pod_spec mount_data
build_redis_deployment r =
    workload r.name r.namespace r.name component_redis (pos 1) []
      (with_empty_dir (
        build_redis_pod_spec r.spec.image r.spec.exporter_image r.spec.enable_exporter r.spec.auth
          r.spec.tls (config_map_name_for_redis r.name) false))
      []

-- The first container learns the address of the sentinels.
abbrev pub tell_sentinels : Str → List Container → List Container
tell_sentinels host [] = []
tell_sentinels host (c ∷ cs) =
    record c {
      env = c.env ++ record { name = codes "SENTINEL_SVC"; source = EnvSource.literal host } ∷ [];
    }
    ∷ cs

abbrev pub sentinels_host : RedisSentinel → Str
sentinels_host rs = rs.name ++ codes "-sentinel." ++ rs.namespace ++ codes ".svc.cluster.local"

abbrev pub under_sentinels : RedisSentinel → PodSpec → PodSpec
under_sentinels rs p = record p {
  containers = tell_sentinels (sentinels_host rs) p.containers;
  init_containers = build_sentinel_init_container rs ∷ [];
}

unfoldable pub build_sentinel_redis_stateful_set : RedisSentinel → Workload
unfolding build_redis_pod_spec build_sentinel_init_container
build_sentinel_redis_stateful_set rs =
    workload rs.name rs.namespace rs.name component_redis rs.spec.replicas
      (headless_service_name rs.name component_redis)
      (under_sentinels rs (
        build_redis_pod_spec rs.spec.image rs.spec.exporter_image rs.spec.enable_exporter
          rs.spec.auth rs.spec.tls (config_map_name_for_redis rs.name) (is_some rs.spec.storage)))
      (claims_of rs.spec.storage)

unfoldable pub build_sentinel_deployment : RedisSentinel → Workload
unfolding build_sentinel_container
build_sentinel_deployment rs =
    workload (rs.name ++ codes "-sentinel") rs.namespace rs.name component_sentinel
      rs.spec.sentinel_replicas []
      (record {
        init_containers = [];
        containers = build_sentinel_container rs ∷ [];
        volumes =
            record {
              name = codes "sentinel-config";
              source = VolumeSource.from_config_map (config_map_name_for_sentinel rs.name);
            }
            ∷ record { name = codes "sentinel-data"; source = VolumeSource.empty_dir }
            ∷ [];
      })
      []

abbrev cluster_pod : RedisCluster → PodSpec
cluster_pod rc =
    build_cluster_pod_spec rc.spec.image rc.spec.exporter_image rc.spec.enable_exporter rc.spec.auth
      rc.spec.tls (config_map_name_for_redis rc.name)

unfoldable pub build_cluster_master_stateful_set : RedisCluster → Workload
unfolding build_cluster_pod_spec
build_cluster_master_stateful_set rc =
    workload (cluster_master_statefulset_name rc.name) rc.namespace rc.name component_master
      rc.spec.masters (headless_service_name rc.name component_master) (cluster_pod rc)
      (claims_of rc.spec.storage)

unfoldable pub build_cluster_replica_stateful_set : RedisCluster → Workload
unfolding build_cluster_pod_spec int32 ◌*ℤ◌
build_cluster_replica_stateful_set rc =
    workload (cluster_replica_statefulset_name rc.name) rc.namespace rc.name component_replica
      (int32 (rc.spec.masters *ℤ rc.spec.replicas_per_master))
      (headless_service_name rc.name component_replica) (cluster_pod rc) (claims_of rc.spec.storage)
