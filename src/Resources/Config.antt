-- ===== src/Resources/Config.antt =====
-- The ConfigMaps of internal/resources/configmap.go, and `configDataHash` of
-- internal/controller/redis_controller.go. The order in which `range` visits the keys of a map is a
-- parameter; so is the hash function.
pub mod Determined
pub mod Overrides
use kubernetes_redis_operato.Prelude.{
  ◌+◌, ℕ, ◌/◌, Bool, List, [], ◌∷◌, ◌++◌, Option, none, some, take, if◌then◌else◌,
}
use kubernetes_redis_operato.Prelude.Int.{ℤ, pos, negsuc, ◌+ℤ◌, ◌-ℤ◌}
use kubernetes_redis_operato.Go.Text.{Str, codes}
use kubernetes_redis_operato.Go.Number.{itoa_ℤ}
use kubernetes_redis_operato.Go.Map.{Map, lookup, insert, or_zero}
use kubernetes_redis_operato.Go.Sort.{sort_strings}
use kubernetes_redis_operato.Api.Cluster.{config_of}
use kubernetes_redis_operato.Api.Objects.{RedisInstance, RedisSentinel, RedisCluster}
use kubernetes_redis_operato.Resources.Labels.{common_labels, component_redis, component_sentinel}
use kubernetes_redis_operato.Resources.Object.{ConfigMap}

abbrev pub keys : Map Str → List Str
keys [] = []
keys ((k, v) ∷ m) = k ∷ keys m

abbrev pub Visit : Type 0
Visit = Map Str → List Str

abbrev pub config_map_name_for_redis : Str → Str
config_map_name_for_redis cr = cr ++ codes "-config"

abbrev pub config_map_name_for_sentinel : Str → Str
config_map_name_for_sentinel cr = cr ++ codes "-sentinel-config"

abbrev pub value_of : Str → Map Str → Str
value_of k m = or_zero [] (lookup k m)

-- `for k, v := range user { m[k] = v }`, over the keys in some order
unfoldable pub set_all : List Str → Map Str → Map Str → Map Str
unfolding lookup insert
set_all [] user m = m
set_all (k ∷ ks) user m = set_all ks user (insert k (value_of k user) m)

-- One line for each key: the key, a separator and the value.
unfoldable pub render_lines : ℕ → Map Str → List Str → Str
unfolding lookup
render_lines sep m [] = []
render_lines sep m (k ∷ ks) = k ++ sep ∷ value_of k m ++ b'\n' ∷ render_lines sep m ks

abbrev pub cluster_defaults : Map Str
cluster_defaults =
    (codes "bind", codes "0.0.0.0")
    ∷ (codes "protected-mode", codes "no")
    ∷ (codes "port", codes "6379")
    ∷ (codes "dir", codes "/data")
    ∷ (codes "appendonly", codes "yes")
    ∷ (codes "save", codes "3600 1 900 10 300 100")
    ∷ (codes "cluster-enabled", codes "yes")
    ∷ (codes "cluster-config-file", codes "nodes.conf")
    ∷ (codes "cluster-node-timeout", codes "15000")
    ∷ (codes "cluster-announce-port", codes "6379")
    ∷ (codes "cluster-announce-bus-port", codes "16379")
    ∷ []

-- The ports of a server with and without TLS stand behind the other defaults.
abbrev pub port_defaults : Bool → Map Str
port_defaults tls =
    if tls
    then (codes "port", codes "0")
      ∷ (codes "tls-port", codes "6379")
      ∷ (codes "tls-replication", codes "yes")
      ∷ (codes "tls-cluster", codes "yes")
      ∷ []
    else (codes "port", codes "6379") ∷ []

abbrev pub redis_defaults : Bool → Map Str
redis_defaults tls =
    (codes "bind", codes "0.0.0.0")
    ∷ (codes "protected-mode", codes "no")
    ∷ (codes "dir", codes "/data")
    ∷ (codes "appendonly", codes "yes")
    ∷ (codes "save", codes "3600 1 900 10 300 100")
    ∷ port_defaults tls

-- Half of an int32, rounded towards zero.
abbrev half : ℤ → ℤ
half (pos n) = pos (n / 2)
half (negsuc n) = pos 0 -ℤ pos ((n + 1) / 2)

unfoldable pub sentinel_quorum : ℤ → ℤ
unfolding ◌+ℤ◌ ◌-ℤ◌
sentinel_quorum replicas = half replicas +ℤ pos 1

unfoldable pub sentinel_defaults : Str → ℤ → Map Str
unfolding itoa_ℤ
sentinel_defaults master quorum =
    (codes "sentinel monitor mymaster", master ++ codes " 6379 " ++ itoa_ℤ quorum)
    ∷ (codes "sentinel down-after-milliseconds mymaster", codes "5000")
    ∷ (codes "sentinel failover-timeout mymaster", codes "10000")
    ∷ (codes "sentinel parallel-syncs mymaster", codes "1")
    ∷ []

abbrev pub is_some : {A : Type 0} → Option A → Bool
is_some none = Bool.false
is_some (some _) = Bool.true

module _ (visit : Visit) where
  unfoldable pub override : Map Str → Map Str → Map Str
  unfolding set_all
  override user m = set_all (visit user) user m

  unfoldable pub render_conf : Map Str → Str
  unfolding render_lines sort_strings
  render_conf m = render_lines b' ' m (sort_strings (visit m))

  unfoldable pub default_redis_conf : Map Str → Bool → Str
  unfolding override render_conf
  default_redis_conf user tls = render_conf (override user (redis_defaults tls))

  abbrev config_map : Str → Str → Str → Str → Str → Str → ConfigMap
  config_map name namespace cr component file text = record {
    name = name;
    namespace = namespace;
    labels = common_labels cr component;
    contents = (file, text) ∷ [];
  }

  unfoldable pub build_redis_config_map : RedisInstance → ConfigMap
  unfolding default_redis_conf
  build_redis_config_map r =
      config_map (config_map_name_for_redis r.name) r.namespace r.name component_redis
        (codes "redis.conf")
        (default_redis_conf (config_of r.spec.redis_config) (is_some r.spec.tls))

  unfoldable pub build_sentinel_redis_config_map : RedisSentinel → ConfigMap
  unfolding default_redis_conf
  build_sentinel_redis_config_map rs =
      config_map (config_map_name_for_redis rs.name) rs.namespace rs.name component_redis
        (codes "redis.conf")
        (default_redis_conf (config_of rs.spec.redis_config) (is_some rs.spec.tls))

  unfoldable pub build_sentinel_config_map : RedisSentinel → Str → ConfigMap
  unfolding override render_conf sentinel_defaults sentinel_quorum
  build_sentinel_config_map rs master =
      config_map (config_map_name_for_sentinel rs.name) rs.namespace rs.name component_sentinel
        (codes "sentinel.conf")
        (render_conf (
          override (config_of rs.spec.sentinel_config)
            (sentinel_defaults master (sentinel_quorum rs.spec.sentinel_replicas))))

  unfoldable pub build_cluster_config_map : RedisCluster → ConfigMap
  unfolding override render_conf
  build_cluster_config_map rc =
      config_map (config_map_name_for_redis rc.name) rc.namespace rc.name component_redis
        (codes "redis.conf")
        (render_conf (override (config_of rc.spec.redis_config) cluster_defaults))

  -- `sha256_hex` is the hash in hexadecimal digits.
  unfoldable pub config_data_hash : (Str → Str) → Map Str → Str
  unfolding render_lines sort_strings
  config_data_hash sha256_hex m =
      take 16 (sha256_hex (render_lines b'=' m (sort_strings (visit m))))
