-- ===== src/Controller/Names.antt =====
-- The addresses that the controller of RedisCluster in
-- internal/controller/rediscluster_controller.go builds.
pub mod Split
use kubernetes_redis_operato.Prelude.{
  ℕ, zero, suc, ◌||◌, List, [], ◌∷◌, ◌++◌, Option, none, some, if◌then◌else◌, length,
}
use kubernetes_redis_operato.Prelude.Int.{ℤ, pos, pos_part, ◌+ℤ◌, ◌-ℤ◌, ◌*ℤ◌, ltb_ℤ}
use kubernetes_redis_operato.Go.Text.{Str, codes, str_eq}
use kubernetes_redis_operato.Go.Number.{itoa, itoa_ℤ}
use kubernetes_redis_operato.Go.Word.{int32}
use kubernetes_redis_operato.Api.Types.{RedisClusterSpec, Phase}
use kubernetes_redis_operato.Api.Objects.{RedisCluster}
use kubernetes_redis_operato.Resources.Labels.{
  component_master, component_replica, redis_port, cluster_master_statefulset_name,
  cluster_replica_statefulset_name, headless_service_name, pod_fqdn,
}
use kubernetes_redis_operato.Redis.Effect.{Halt, M, pure, stop}

-- `clusterMasterAddr` and `clusterReplicaAddr`
abbrev pub cluster_master_host : RedisCluster → ℤ → Str
cluster_master_host rc i =
    pod_fqdn (cluster_master_statefulset_name rc.name ++ b'-' ∷ itoa_ℤ i)
      (headless_service_name rc.name component_master) rc.namespace

unfoldable pub cluster_master_addr : RedisCluster → ℤ → Str
unfolding itoa_ℤ itoa
cluster_master_addr rc i = cluster_master_host rc i ++ b':' ∷ itoa redis_port

abbrev pub cluster_replica_host : RedisCluster → ℤ → Str
cluster_replica_host rc i =
    pod_fqdn (cluster_replica_statefulset_name rc.name ++ b'-' ∷ itoa_ℤ i)
      (headless_service_name rc.name component_replica) rc.namespace

unfoldable pub cluster_replica_addr : RedisCluster → ℤ → Str
unfolding itoa_ℤ itoa
cluster_replica_addr rc i = cluster_replica_host rc i ++ b':' ∷ itoa redis_port

unfoldable pub count_up : ℕ → ℤ → List ℤ
unfolding ◌+ℤ◌
count_up zero i = []
count_up (suc n) i = i ∷ count_up n (i +ℤ pos 1)

-- `for i := a; i < b; i++`
unfoldable pub between : ℤ → ℤ → List ℤ
unfolding count_up ◌-ℤ◌
between a b = count_up (pos_part (b -ℤ a)) a

unfoldable pub count_from : ℕ → ℤ → List ℤ
unfolding ◌-ℤ◌
count_from zero i = []
count_from (suc n) i = i ∷ count_from n (i -ℤ pos 1)

-- `for i := b - 1; i >= a; i--`
unfoldable pub count_down : ℤ → ℤ → List ℤ
unfolding count_from ◌-ℤ◌
count_down a b = count_from (pos_part (b -ℤ a)) (b -ℤ pos 1)

abbrev pub map_addr : (ℤ → Str) → List ℤ → List Str
map_addr f [] = []
map_addr f (i ∷ is) = f i ∷ map_addr f is

-- `make([]string, n)` panics on a negative length.
unfoldable pub addrs : (ℤ → Str) → ℤ → M (List Str)
unfolding between
addrs f n = if ltb_ℤ n (pos 0) then stop Halt.panic else pure (map_addr f (between (pos 0) n))

-- `allMasterAddrs` and `allReplicaAddrs`
unfoldable pub all_master_addrs : RedisCluster → M (List Str)
unfolding addrs cluster_master_addr
all_master_addrs rc = addrs (cluster_master_addr rc) rc.spec.masters

unfoldable pub total_replicas : RedisClusterSpec → ℤ
unfolding int32 ◌*ℤ◌
total_replicas s = int32 (s.masters *ℤ s.replicas_per_master)

unfoldable pub all_replica_addrs : RedisCluster → M (List Str)
unfolding addrs cluster_replica_addr total_replicas
all_replica_addrs rc = addrs (cluster_replica_addr rc) (total_replicas rc.spec)

-- `i*rc.Spec.ReplicasPerMaster + j`
unfoldable pub replica_index : RedisClusterSpec → ℤ → ℤ → ℤ
unfolding int32 ◌+ℤ◌ ◌*ℤ◌
replica_index s i j = int32 (int32 (i *ℤ s.replicas_per_master) +ℤ j)
