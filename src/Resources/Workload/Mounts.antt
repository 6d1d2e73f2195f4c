-- ===== src/Resources/Workload/Mounts.antt =====
-- That the volumes which the containers mount are there, without which Kubernetes refuses a pod.
use kubernetes_redis_operato.Prelude.{
  Bool, true, false, ◌&&◌, ◌≡◌, refl, ◌∙◌, List, [], ◌∷◌, ◌++◌, Option, none, some,
}
use kubernetes_redis_operato.Go.Text.{Str, str_eq, contains}
use kubernetes_redis_operato.Api.Types.{StorageSpec}
use kubernetes_redis_operato.Api.Objects.{RedisInstance, RedisSentinel, RedisCluster}
use kubernetes_redis_operato.Resources.Object.{
  VolumeMount, Volume, Container, PodSpec, ClaimTemplate, Workload,
}
use kubernetes_redis_operato.Resources.Config.{is_some, config_map_name_for_redis}
use kubernetes_redis_operato.Resources.Container.{
  announcing, with_exporter, build_volumes, build_redis_container, build_exporter_container,
  build_redis_pod_spec, build_cluster_pod_spec, build_sentinel_init_container,
  build_sentinel_container,
}
use kubernetes_redis_operato.Resources.Workload.{
  sentinels_host, tell_sentinels, claims_of, with_empty_dir, under_sentinels, mount_data,
  build_redis_stateful_set, build_redis_deployment, build_sentinel_redis_stateful_set,
  build_sentinel_deployment, build_cluster_master_stateful_set, build_cluster_replica_stateful_set,
}

abbrev volume_names : List Volume → List Str
volume_names [] = []
volume_names (v ∷ vs) = v.name ∷ volume_names vs

abbrev claim_names : List ClaimTemplate → List Str
claim_names [] = []
claim_names (c ∷ cs) = c.name ∷ claim_names cs

unfoldable pub mounts_named : List Str → List VolumeMount → Bool
unfolding contains
mounts_named names [] = true
mounts_named names (m ∷ ms) = contains names m.name && mounts_named names ms

unfoldable pub containers_named : List Str → List Container → Bool
unfolding mounts_named
containers_named names [] = true
containers_named names (c ∷ cs) = mounts_named names c.mounts && containers_named names cs

-- Every volume that a container mounts is one of the pod's or of the claims.
unfoldable pub pod_mounts_defined : PodSpec → List ClaimTemplate → Bool
unfolding containers_named
pod_mounts_defined p claims =
    containers_named (claim_names claims ++ volume_names p.volumes)
      (p.init_containers ++ p.containers)

abbrev pub mounts_defined : Workload → Bool
mounts_defined w = pod_mounts_defined w.pod w.claims

names_of : Str → Option Str → Option StorageSpec → List Str
names_of map tls storage = claim_names (claims_of storage) ++ volume_names (build_volumes map tls)

and_true : (b : Bool) → (b && true) ≡ b
and_true true = refl
and_true false = refl

-- The container of the server, where it mounts the data and where it does not.
server_mounts :
    (map image : Str) (auth tls : Option Str) (storage : Option StorageSpec)
    → mounts_named (names_of map tls storage) (build_redis_container image auth tls true).mounts
      ≡ is_some storage
unfolding names_of mounts_named contains str_eq build_redis_container
server_mounts map image auth none none = refl
server_mounts map image auth (some t) none = refl
server_mounts map image auth none (some s) = refl
server_mounts map image auth (some t) (some s) = refl

server_mounts_stored :
    (map image : Str) (auth tls : Option Str) (storage : Option StorageSpec)
    → mounts_named
        (names_of map tls storage)
        (build_redis_container image auth tls (is_some storage)).mounts
      ≡ true
unfolding names_of mounts_named contains str_eq build_redis_container
server_mounts_stored map image auth none none = refl
server_mounts_stored map image auth (some t) none = refl
server_mounts_stored map image auth none (some s) = refl
server_mounts_stored map image auth (some t) (some s) = refl

-- The exporter mounts nothing.
exporter_mounts :
    (names : List Str) (enabled : Option Bool) (redis : Container) (image : Str) (auth : Option Str)
    → containers_named names (with_exporter enabled redis (build_exporter_container image auth))
      ≡ mounts_named names redis.mounts
unfolding containers_named mounts_named build_exporter_container
exporter_mounts names none redis image auth = and_true (mounts_named names redis.mounts)
exporter_mounts names (some true) redis image auth = and_true (mounts_named names redis.mounts)
exporter_mounts names (some false) redis image auth = and_true (mounts_named names redis.mounts)

redis_pod :
    (image exporter map : Str) (enabled : Option Bool) (auth tls : Option Str)
    (storage : Option StorageSpec)
    → pod_mounts_defined
        (build_redis_pod_spec image exporter enabled auth tls map true)
        (claims_of storage)
      ≡ is_some storage
unfolding pod_mounts_defined build_redis_pod_spec names_of
redis_pod image exporter map enabled auth tls storage =
    exporter_mounts (names_of map tls storage) enabled (build_redis_container image auth tls true)
      exporter auth
    ∙ server_mounts map image auth tls storage

cluster_pod_mounts :
    (image exporter map : Str) (enabled : Option Bool) (auth tls : Option Str)
    (storage : Option StorageSpec)
    → pod_mounts_defined
        (build_cluster_pod_spec image exporter enabled auth tls map)
        (claims_of storage)
      ≡ is_some storage
unfolding pod_mounts_defined build_cluster_pod_spec names_of
cluster_pod_mounts image exporter map enabled auth tls storage =
    exporter_mounts (names_of map tls storage) enabled
      (announcing (build_redis_container image auth tls true)) exporter auth
    ∙ server_mounts map image auth tls storage

deployed_pod :
    (image exporter map : Str) (enabled : Option Bool) (auth tls : Option Str)
    → pod_mounts_defined
        (with_empty_dir (build_redis_pod_spec image exporter enabled auth tls map false))
        []
      ≡ true
unfolding pod_mounts_defined containers_named mounts_named contains str_eq mount_data
    build_redis_pod_spec build_redis_container build_exporter_container
deployed_pod image exporter map none auth none = refl
deployed_pod image exporter map none auth (some t) = refl
deployed_pod image exporter map (some true) auth none = refl
deployed_pod image exporter map (some true) auth (some t) = refl
deployed_pod image exporter map (some false) auth none = refl
deployed_pod image exporter map (some false) auth (some t) = refl

told_mounts :
    (names : List Str) (host : Str) (cs : List Container)
    → containers_named names (tell_sentinels host cs) ≡ containers_named names cs
unfolding containers_named
told_mounts names host [] = refl
told_mounts names host (c ∷ cs) = refl

init_mounts :
    (rs : RedisSentinel) (map : Str) (tls : Option Str) (storage : Option StorageSpec)
    → mounts_named (names_of map tls storage) (build_sentinel_init_container rs).mounts ≡ true
unfolding names_of mounts_named contains str_eq build_sentinel_init_container
init_mounts rs map tls none = refl
init_mounts rs map tls (some s) = refl

sentinel_pod :
    (rs : RedisSentinel) (image exporter map : Str) (enabled : Option Bool) (auth tls : Option Str)
    (storage : Option StorageSpec)
    → pod_mounts_defined
        (under_sentinels rs
          (build_redis_pod_spec image exporter enabled auth tls map (is_some storage)))
        (claims_of storage)
      ≡ true
unfolding pod_mounts_defined containers_named build_redis_pod_spec names_of
sentinel_pod rs image exporter map enabled auth tls storage =
    let names = names_of map tls storage in
    let redis = build_redis_container image auth tls (is_some storage) in
    rw
      (
        init_mounts rs map tls storage,
        told_mounts names (sentinels_host rs)
            (with_exporter enabled redis (build_exporter_container exporter auth)),
        exporter_mounts names enabled redis exporter auth,
      )
      (server_mounts_stored map image auth tls storage)

-- In the pods of a standalone server without storage, of servers under sentinels and of sentinels,
-- every volume that a container mounts is defined. In the stateful sets of a standalone server and of
-- a cluster it is just when there is storage.
pub workloads-mounts_defined :
    (r : RedisInstance) (rs : RedisSentinel) (rc : RedisCluster)
    → (mounts_defined (build_redis_deployment r) ≡ true)
      × (mounts_defined (build_redis_stateful_set r) ≡ is_some r.spec.storage)
      × (mounts_defined (build_sentinel_redis_stateful_set rs) ≡ true)
      × (mounts_defined (build_sentinel_deployment rs) ≡ true)
      × (mounts_defined (build_cluster_master_stateful_set rc) ≡ is_some rc.spec.storage)
      × (mounts_defined (build_cluster_replica_stateful_set rc) ≡ is_some rc.spec.storage)
unfolding build_redis_deployment build_redis_stateful_set build_sentinel_redis_stateful_set
    build_sentinel_deployment build_cluster_master_stateful_set build_cluster_replica_stateful_set
    build_sentinel_container pod_mounts_defined containers_named mounts_named contains str_eq
workloads-mounts_defined r rs rc = (
  deployed_pod r.spec.image r.spec.exporter_image (config_map_name_for_redis r.name)
      r.spec.enable_exporter r.spec.auth r.spec.tls,
  redis_pod r.spec.image r.spec.exporter_image (config_map_name_for_redis r.name)
      r.spec.enable_exporter r.spec.auth r.spec.tls r.spec.storage,
  sentinel_pod rs rs.spec.image rs.spec.exporter_image (config_map_name_for_redis rs.name)
      rs.spec.enable_exporter rs.spec.auth rs.spec.tls rs.spec.storage,
  refl,
  cluster_pod_mounts rc.spec.image rc.spec.exporter_image (config_map_name_for_redis rc.name)
      rc.spec.enable_exporter rc.spec.auth rc.spec.tls rc.spec.storage,
  cluster_pod_mounts rc.spec.image rc.spec.exporter_image (config_map_name_for_redis rc.name)
      rc.spec.enable_exporter rc.spec.auth rc.spec.tls rc.spec.storage,
)
